-- ===== src/Diagnostic/Modes/Passive.antt =====
-- The passive part of run_diagnostic of src/lms200/hardware_diagnostic.py sends nothing, and ends.
use gepruft_lidar.Prelude.{
  ℕ, zero, suc, ◌+◌, ◌≤◌, ◌<◌, ◌≡◌, sym, refl, ◌∙◌, ◌⊎◌, inl, inr, Bool, true, false, ◌&&◌, Option,
  none, some, List, arith, leb, if◌then◌else◌,
}
use gepruft_lidar.Prelude.Result.{Error}
use gepruft_lidar.Diagnostic.Capture.{Capture, passive, is_present}
use gepruft_lidar.Diagnostic.Bench.{Port, enter, now, receive}
use gepruft_lidar.Diagnostic.Bench.Rules.{anything, IsClock, Steady, receive-KeepsSteady}
use gepruft_lidar.Diagnostic.Bench.Clock.{From, receive-Passes}
use gepruft_lidar.Diagnostic.Modes.{break_or, found_or, turn, passive_loop, listen_first}
use gepruft_lidar.Diagnostic.Decisions.{
  Mode, Gates, Report, State, Reason, listen_startup, status, loopback, direct_test, is_startup,
  is_over, confirmed_at, note_power, note_complete, no_power, no_startup, no_completion, reason,
}
use gepruft_lidar.Diagnostic.Modes.Window.{Asked, Unsent, Said, Shown}
use gepruft_lidar.Diagnostic.Modes.Sending.{Unsent-stable, Unsent-Said}
use gepruft_lidar.Device.Exec.{Exec, modify, ◌>>=◌}
use gepruft_lidar.Device.Exec.Triple.{
  Triple, Triple-bind, Triple-modify, Triple-gets, Triple-pure, Triple-weaken, Triple-strengthen,
  Triple-assume, Triple-both,
}

-- The fuel that the loop needs at a time: for the wait for the power, and 300 seconds after it.
abbrev Enough : ℕ → ℕ → Option ℕ → ℕ → Type 0
Enough n ready none time = (300001 < n) × (ready + 300001 < time + n)
Enough n ready (some c) time = (0 < n) × (c + 300000 < time + n)

Enough-later :
    (n ready : ℕ) (confirmed : Option ℕ) (t t' : ℕ)
    → t ≤ t'
    → Enough n ready confirmed t
    → Enough n ready confirmed t'
Enough-later n ready none t t' h (a, b) = (a, omega (arith, b, h))
Enough-later n ready (some c) t t' h (a, b) = (a, omega (arith, b, h))

going :
    {A : Type 0} (c : Bool) (a : A) (rest : Option A)
    → (if c then some a else rest) ≡ none
    → (c ≡ false) × (rest ≡ none)
going true a rest e = cc
going false a rest e = (refl, e)

not_yet : (limit time : ℕ) → leb limit time ≡ false → time < limit
not_yet limit time h = ground (arith, h)

not_ready :
    (mode : Mode) (ready time : ℕ) (r : Report)
    → is_over mode ready time none r ≡ none
    → time < ready
not_ready mode ready time r e = not_yet ready time (going (leb ready time) (some no_power) none e).0

soon : (c time : ℕ) → leb (c + 65000) time ≡ false → time < c + 300000
soon c time h = ground (arith, h)

-- A loop that goes on after the confirmation is within 300 seconds of it.
not_late :
    (mode : Mode) (ready time c : ℕ) (r : Report)
    → is_over mode ready time (some c) r ≡ none
    → time < c + 300000
not_late direct_test ready time c r e =
    not_yet (c + 300000) time
      (going (leb (c + 300000) time) (some no_completion) none
        (going (leb (c + 65000) time && r.startup_complete_confirmed) none _ e).1).0
not_late listen_startup ready time c r e =
    soon c time (going (leb (c + 65000) time) (some no_startup) none e).0
not_late status ready time c r e =
    soon c time (going (leb (c + 65000) time) (some no_startup) none e).0
not_late loopback ready time c r e =
    soon c time (going (leb (c + 65000) time) (some no_startup) none e).0

Enough-next :
    (n ready time : ℕ) (mode : Mode) (confirmed : Option ℕ) (power : Bool) (r : Report)
    → Enough (suc n) ready confirmed time
    → is_over mode ready time (confirmed_at power time confirmed) r ≡ none
    → Enough n ready (confirmed_at power time confirmed) (suc time)
Enough-next n ready time mode (some c) power r (a, b) e =
    (omega (arith, b, not_late mode ready time c r e), omega (arith, b))
Enough-next n ready time mode none true r (a, b) e = (omega (arith, a), omega (arith, a))
Enough-next n ready time mode none false r (a, b) e =
    (omega (arith, b, not_ready mode ready time r e), omega (arith, b))

module _ (P : Port) (fuel : ℕ) (mode : Mode) (g : Gates) (clock : IsClock P)
    (start : List (List ℕ)) where
  abbrev pub In : (Capture → List (List ℕ) → Report → Type 0) → State P → Type 0
  In J = Steady P ⊥ (λ e. Unit) J

  -- After the passive part: nothing was sent, and only listen-startup has an end.
  abbrev pub Listened : Capture → List (List ℕ) → Report → Type 0
  Listened s sent r =
      Unsent (Asked P start) start mode s sent r
      ⊎ ((is_startup mode ≡ true) × Said (Asked P start) start mode s sent r)

  abbrev pub Stops : Error → State P → Type 0
  Stops e b = In (Said (Asked P start) start mode) b

  abbrev Waits : ℕ → State P → Type 0
  Waits t b = In (Unsent (Asked P start) start mode) b × From P t b

  same_Unsent :
      (s : Capture) (sent : List (List ℕ)) (r r' : Report)
      → r'.success ≡ r.success
      → (r'.startup_complete_confirmed ≡ true → Asked P start)
      → Unsent (Asked P start) start mode s sent r
      → Unsent (Asked P start) start mode s sent r'
  same_Unsent s sent r r' e a v = record {
    kept = v.kept;
    boundary = v.boundary;
    asked = a;
    failed = e ∙ v.failed;
  }

  note_power-success :
      (power : Bool) (confirmed : Option ℕ) (r : Report)
      → (note_power power confirmed r).success ≡ r.success
  note_power-success power (some c) r = refl
  note_power-success true none r = refl
  note_power-success false none r = refl

  note_power-gate :
      (power : Bool) (confirmed : Option ℕ) (r : Report)
      → (note_power power confirmed r).startup_complete_confirmed ≡ r.startup_complete_confirmed
  note_power-gate power (some c) r = refl
  note_power-gate true none r = refl
  note_power-gate false none r = refl

  -- Only the operator's answer confirms the startup.
  note_complete-gate :
      (mode : Mode) (complete : Bool) (confirmed : Option ℕ) (r : Report)
      → (note_complete mode complete confirmed r).startup_complete_confirmed ≡ true
      → (complete ≡ true) ⊎ (r.startup_complete_confirmed ≡ true)
  note_complete-gate direct_test true (some c) r h = inl refl
  note_complete-gate direct_test false (some c) r h = inr h
  note_complete-gate direct_test complete none r h = inr h
  note_complete-gate listen_startup complete confirmed r h = inr h
  note_complete-gate status complete confirmed r h = inr h
  note_complete-gate loopback complete confirmed r h = inr h

  note_complete-success :
      (mode : Mode) (complete : Bool) (confirmed : Option ℕ) (r : Report)
      → (note_complete mode complete confirmed r).success ≡ r.success
  note_complete-success direct_test true (some c) r = refl
  note_complete-success direct_test false (some c) r = refl
  note_complete-success direct_test complete none r = refl
  note_complete-success listen_startup complete confirmed r = refl
  note_complete-success status complete confirmed r = refl
  note_complete-success loopback complete confirmed r = refl

  -- An entry of the report in a turn.
  entered :
      (t : ℕ) (f : Report → Report)
      → ((r : Report) → (f r).success ≡ r.success)
      → ((r : Report) → (f r).startup_complete_confirmed ≡ r.startup_complete_confirmed)
      → Triple ⊥ (Waits t) (modify (enter f)) (λ u. Waits t) Stops
  entered t f h k = Triple-modify ⊥ (enter f) λ b v. (
    (
      v.0.0,
      same_Unsent b.capture (P.written b.port) b.report (f b.report) (h b.report)
          (λ x. v.0.1.asked (sym (k b.report) ∙ x)) v.0.1,
    ),
    v.1,
  )

  Answered : ℕ → Bool → State P → Type 0
  Answered t complete b = Waits t b × (complete ≡ true → Asked P start)

  -- The entry of the operator's answer.
  completed :
      (t : ℕ) (complete : Bool) (confirmed : Option ℕ)
      → Triple ⊥
          (Answered t complete)
          (modify (enter (note_complete mode complete confirmed)))
          (λ u. Waits t)
          Stops
  unfolding Answered
  completed t complete confirmed =
      Triple-modify ⊥ (enter (note_complete mode complete confirmed)) λ b (v, answer). (
        (
          v.0.0,
          same_Unsent b.capture (P.written b.port) b.report _
              (note_complete-success mode complete confirmed b.report)
              (λ x. elim (note_complete-gate mode complete confirmed b.report x) [
                | inl y ↦ answer y
                | inr y ↦ v.0.1.asked y
              ])
              v.0.1,
        ),
        v.1,
      )

  heard : (t : ℕ) → Triple ⊥ (Waits t) (receive P passive true) (λ u. Waits (suc t)) Stops
  heard t =
      Triple-weaken ⊥ _ (λ u b v. v)
        (λ e b v. (
          v.0.1.0,
          Unsent-Said (Asked P start) start mode b.capture (P.written b.port) b.report v.0.1.1,
        ))
        (Triple-both ⊥ _
          (receive-KeepsSteady P ⊥ (λ e. Unit) (Unsent (Asked P start) start mode) (anything P)
            (Unsent-stable (Asked P start) start mode) passive true)
          (receive-Passes P clock t passive true))

  abbrev Found : ℕ → Bool → State P → Type 0
  Found t found b = ((is_startup mode && is_present b.capture.startup) ≡ found) × Waits t b

  found :
      (t : ℕ) (c : Bool) (rest : Exec (State P) (Unit {0}))
      → Triple ⊥ (Waits t) rest (λ u. In Listened) Stops
      → Triple ⊥ (Found t c) (found_or P fuel mode g c rest) (λ u. In Listened) Stops
  found t true rest k = Triple-modify ⊥ (enter λ r. record r { success = true }) λ b v. (
    v.1.0.0,
    inr (
      startup mode _ v.0,
      record { allowed = inl v.1.0.1.kept; honest = λ h. shown mode b.capture v.0 },
    ),
  )
    where
      startup : (mode : Mode) (c : Bool) → (is_startup mode && c) ≡ true → is_startup mode ≡ true
      startup listen_startup c h = refl
      startup status c h = cc
      startup loopback c h = cc
      startup direct_test c h = cc

      shown :
          (mode : Mode) (s : Capture)
          → (is_startup mode && is_present s.startup) ≡ true
          → Shown mode s
      shown listen_startup s h = h
      shown status s h = cc
      shown loopback s h = cc
      shown direct_test s h = cc
  found t false rest k = Triple-strengthen ⊥ _ (λ b v. v.1) k

  abbrev Over : ℕ → ℕ → Option ℕ → Option (Option Reason) → State P → Type 0
  Over ready t confirmed verdict b = (is_over mode ready t confirmed b.report ≡ verdict) × Waits t b

  broken :
      (ready t : ℕ) (confirmed : Option ℕ) (verdict : Option (Option Reason))
      (rest : Exec (State P) (Unit {0}))
      → (((r : Report)
          → is_over mode ready t confirmed r ≡ none
          → Triple ⊥ (Waits t) rest (λ u. In Listened) Stops))
      → Triple ⊥
          (Over ready t confirmed verdict)
          (break_or P fuel mode g verdict rest)
          (λ u. In Listened)
          Stops
  broken ready t confirmed none rest k = record { at = λ b v. (k b.report v.0).at b v.1 }
  broken ready t confirmed (some none) rest k = Triple-pure ⊥ tt λ b v. (v.1.0.0, inl v.1.0.1)
  broken ready t confirmed (some (some why)) rest k = Triple-modify ⊥ (enter (reason why)) λ b v. (
    v.1.0.0,
    inl (
        same_Unsent b.capture (P.written b.port) b.report (reason why b.report) refl v.1.0.1.asked
          v.1.0.1),
  )

  answered : (a b : Bool) → (a && b) ≡ true → b ≡ true
  answered true b h = h
  answered false b h = cc

  turn-Listened :
      (ready time : ℕ) (confirmed : Option ℕ) (power : Bool) (again : Exec (State P) (Unit {0}))
      → ((r : Report)
          → is_over mode ready time (confirmed_at power time confirmed) r ≡ none
          → Triple ⊥ (Waits (suc time)) again (λ u. In Listened) Stops)
      → Triple ⊥
          (Waits time)
          (turn P fuel mode g ready time confirmed power again)
          (λ u. In Listened)
          Stops
  unfolding turn Answered
  turn-Listened ready time confirmed power again k =
      Triple-bind ⊥ _ _
        (entered time (note_power power confirmed) (note_power-success power confirmed)
          (note_power-gate power confirmed))
        λ u.
          Triple-bind ⊥ {Mid = Answered time} _ _
            (Triple-gets ⊥ (λ b. g.complete && P.startup_complete b.port)
              λ b v. (
                v,
                λ h. record {
                  port = b.port;
                  unwritten = v.0.1.kept;
                  confirmed = answered g.complete (P.startup_complete b.port) h;
                },
              ))
            λ complete.
              Triple-bind ⊥ _ _ (completed time complete (confirmed_at power time confirmed)) λ u'.
                Triple-bind ⊥ {Mid = Over ready time (confirmed_at power time confirmed)} _ _
                  (Triple-gets ⊥
                    (λ b. is_over mode ready time (confirmed_at power time confirmed) b.report)
                    λ b v. (refl, v))
                  λ verdict. broken ready time (confirmed_at power time confirmed) verdict _ λ r e.
                    Triple-bind ⊥ _ _ (heard time) λ u''.
                      Triple-bind ⊥ {Mid = Found (suc time)} _ _
                        (Triple-gets ⊥ (λ b. is_startup mode && is_present b.capture.startup)
                          λ b v. (refl, v))
                        λ c. found (suc time) c again (k r e)

  abbrev Told : ℕ → ℕ → State P → Type 0
  Told t time b = (t ≤ time) × Waits time b

  told : (t : ℕ) → Triple ⊥ (Waits t) (now P) (Told t) Stops
  unfolding now
  told t = Triple-gets ⊥ (λ b. P.now b.port) λ b v. (v.1, (v.0, omega arith))

  passive_loop-Listened :
      (n ready t : ℕ) (confirmed : Option ℕ)
      → Enough n ready confirmed t
      → Triple ⊥ (Waits t) (passive_loop P fuel mode g n ready confirmed) (λ u. In Listened) Stops
  unfolding passive_loop
  passive_loop-Listened zero ready t none (a, b) = absurd (omega (arith, a))
  passive_loop-Listened zero ready t (some c) (a, b) = absurd (omega (arith, a))
  passive_loop-Listened (suc n) ready t confirmed enough = record {
    at = λ b v.
        (Triple-bind ⊥ {Mid = Told t} _ _ (told t) λ time.
            Triple-bind ⊥ {Mid = λ power. Told t time} _ _
              (Triple-gets ⊥ (λ b. g.power && P.power_confirmed b.port) λ b v. v)
              λ power. Triple-assume ⊥ (t ≤ time) _ λ h.
                turn-Listened ready time confirmed power _ λ r e.
                  passive_loop-Listened n ready (suc time) (confirmed_at power time confirmed) (
                    Enough-next n ready time mode confirmed power r
                      (Enough-later (suc n) ready confirmed t time h enough) e)).at
          b v;
  }

  pub listen_first-Listened :
      600001 < fuel
      → Triple ⊥
          (In (Unsent (Asked P start) start mode))
          (listen_first P fuel mode g)
          (λ u. In Listened)
          Stops
  unfolding listen_first now ◌>>=◌
  listen_first-Listened enough = record {
    at = λ b v.
        (passive_loop-Listened fuel (P.now b.port + 300000) (P.now b.port) none
            (omega (arith, enough), omega (arith, enough))).at
          b (v, omega arith);
  }
