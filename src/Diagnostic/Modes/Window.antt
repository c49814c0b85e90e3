-- ===== src/Diagnostic/Modes/Window.antt =====
-- What run_diagnostic of src/lms200/hardware_diagnostic.py sends, and the window after it.
use gepruft_lidar.Prelude.{
  ℕ, zero, suc, ◌+◌, ◌<◌, ◌≡◌, refl, ◌∙◌, ◌⊎◌, inl, inr, Bool, true, false, not, ◌&&◌, Option, none,
  some, List, [], ◌∷◌, ◌++◌, arith, subst, ltb, same→eq, Bool-cases, if◌then◌else◌,
}
use gepruft_lidar.Prelude.Result.{Error}
use gepruft_lidar.Diagnostic.Capture.{Capture, is_present, post_tx}
use gepruft_lidar.Diagnostic.Bench.{Port, receive}
use gepruft_lidar.Diagnostic.Bench.Rules.{anything, IsClock, Steady, receive-KeepsSteady}
use gepruft_lidar.Diagnostic.Bench.Clock.{From, receive-Passes}
use gepruft_lidar.Diagnostic.Modes.{judged_or, await}
use gepruft_lidar.Diagnostic.Decisions.{
  Mode, Gates, Report, State, Reason, listen_startup, status, loopback, direct_test, is_direct,
  is_loopback, loopback_pattern, request_of, echo, judge, assess, conclude, reason, why_not,
  nak_received, echo_differs,
}
use gepruft_lidar.Diagnostic.Repeat.Attempts.{IsAnswered}
use gepruft_lidar.Device.Exec.{Exec}
use gepruft_lidar.Device.Exec.Triple.{
  Triple, Triple-bind, Triple-modify, Triple-gets, Triple-weaken, Triple-strengthen, Triple-both,
}

-- What a success stands for.
abbrev pub Shown : Mode → Capture → Type 0
Shown listen_startup s = is_present s.startup ≡ true
Shown loopback s = echo s ≡ loopback_pattern
Shown _ s = IsAnswered s

-- The port as it was when the operator answered that the startup is complete, with nothing written.
pub record Asked (P : Port) (start : List (List ℕ)) : Type 0 where
  pub port : P.State
  pub unwritten : P.written port ≡ start
  pub confirmed : P.startup_complete port ≡ true

module _ (A : Type 0) (start : List (List ℕ)) (mode : Mode) where
  -- Before a telegram is sent, and after.
  pub record Unsent (s : Capture) (sent : List (List ℕ)) (r : Report) : Type 0 where
    pub kept : sent ≡ start
    pub boundary : s.tx_boundary ≡ none
    pub asked : r.startup_complete_confirmed ≡ true → A
    pub failed : r.success ≡ false

  pub record Sent (s : Capture) (sent : List (List ℕ)) (r : Report) : Type 0 where
    pub added : sent ≡ start ++ request_of mode ∷ []
    pub permitted : is_direct mode ≡ true → (r.startup_complete_confirmed ≡ true) × A
    pub failed : r.success ≡ false

  -- The telegrams at the end.
  abbrev pub IsAllowed : List (List ℕ) → Report → Type 0
  IsAllowed sent r =
      (sent ≡ start)
      ⊎ ((sent ≡ start ++ request_of mode ∷ [])
          × (mode ≡ listen_startup → ⊥)
          × (is_direct mode ≡ true → (r.startup_complete_confirmed ≡ true) × A))

  pub record Said (s : Capture) (sent : List (List ℕ)) (r : Report) : Type 0 where
    pub allowed : IsAllowed sent r
    pub honest : r.success ≡ true → Shown mode s

-- A judgement leaves what the operator confirmed, and a success of it is shown.
pub record IsFair (mode : Mode) (s : Capture) (r r' : Report) : Type 0 where
  pub same_gate : r'.startup_complete_confirmed ≡ r.startup_complete_confirmed
  pub shows : r'.success ≡ true → Shown mode s

counted : (s : Capture) → (is_present s.status && not s.post_nak) ≡ true → IsAnswered s
counted s e = split s.status s.post_nak refl refl e
  where
    split :
        (o : Option ℕ) (nak : Bool)
        → s.status ≡ o
        → s.post_nak ≡ nak
        → (is_present o && not nak) ≡ true
        → IsAnswered s
    split none nak h k e = cc
    split (some i) true h k e = cc
    split (some i) false h k e = record { index = i; status = h; no_nak = k }

pub unmoved-IsFair :
    (mode : Mode) (s : Capture) (r : Report) → r.success ≡ false → IsFair mode s r r
unmoved-IsFair mode s r f = record { same_gate = refl; shows = λ h. cc }

reason-IsFair :
    (mode : Mode) (s : Capture) (r r' : Report) (why : Reason)
    → r'.success ≡ false
    → IsFair mode s r r'
    → IsFair mode s r (reason why r')
reason-IsFair mode s r r' why f v = record { same_gate = v.same_gate; shows = λ h. cc }

some_same : {r r' : Report} → some r ≡ some r' → r ≡ r'
some_same e = cc

status-IsFair :
    (s : Capture) (r r' : Report) (nak : Bool) (o : Option ℕ)
    → s.post_nak ≡ nak
    → s.status ≡ o
    → r.success ≡ false
    → (if nak
        then some (reason nak_received r)
        else if is_present o
        then some (record r { success = true; status_response = o })
        else none)
      ≡ some r'
    → IsFair status s r r'
status-IsFair s r r' true o n h f e =
    subst (IsFair status s r) (some_same e)
      (reason-IsFair status s r r nak_received f (unmoved-IsFair status s r f))
status-IsFair s r r' false none n h f e = cc
status-IsFair s r r' false (some i) n h f e =
    subst (IsFair status s r) (some_same e)
      (record { same_gate = refl; shows = λ x. record { index = i; status = h; no_nak = n } })

echo-IsFair :
    (s : Capture) (r r' : Report) (c : Bool)
    → r.success ≡ false
    → (if c then none else some (reason echo_differs r)) ≡ some r'
    → IsFair loopback s r r'
echo-IsFair s r r' true f e = cc
echo-IsFair s r r' false f e =
    subst (IsFair loopback s r) (some_same e)
      (reason-IsFair loopback s r r echo_differs f (unmoved-IsFair loopback s r f))

judge-IsFair :
    (mode : Mode) (s : Capture) (r r' : Report)
    → r.success ≡ false
    → judge mode s r ≡ some r'
    → IsFair mode s r r'
judge-IsFair listen_startup s r r' f e = cc
judge-IsFair direct_test s r r' f e = cc
judge-IsFair status s r r' f e = status-IsFair s r r' s.post_nak s.status refl refl f e
judge-IsFair loopback s r r' f e = echo-IsFair s r r' _ f e

assess-IsFair :
    (mode : Mode) (s : Capture) (r : Report) → r.success ≡ false → IsFair mode s r (assess mode s r)
assess-IsFair listen_startup s r f = unmoved-IsFair listen_startup s r f
assess-IsFair status s r f = unmoved-IsFair status s r f
assess-IsFair loopback s r f = record {
  same_gate = refl;
  shows = λ h. same→eq (echo s) loopback_pattern h;
}
assess-IsFair direct_test s r f = record { same_gate = refl; shows = λ h. counted s h }

conclude-IsFair :
    (mode : Mode) (s : Capture) (r : Report)
    → r.success ≡ false
    → IsFair mode s r (conclude mode s r)
conclude-IsFair mode s r f = concluded (assess mode s r).success refl (assess-IsFair mode s r f)
  where
    concluded :
        (c : Bool)
        → (assess mode s r).success ≡ c
        → IsFair mode s r (assess mode s r)
        → IsFair mode s r (if c then assess mode s r else reason (why_not mode s) (assess mode s r))
    concluded true e v = v
    concluded false e v = reason-IsFair mode s r (assess mode s r) (why_not mode s) e v

module _ (P : Port) (fuel : ℕ) (mode : Mode) (g : Gates) (clock : IsClock P)
    (sends : mode ≡ listen_startup → ⊥) (start : List (List ℕ)) where
  abbrev pub Has : (Capture → List (List ℕ) → Report → Type 0) → State P → Type 0
  Has J = Steady P ⊥ (λ e. Unit) J

  abbrev pub Fails : Error → State P → Type 0
  Fails e b = Has (Said (Asked P start) start mode) b

  pub Sent-Said :
      (s : Capture) (sent : List (List ℕ)) (r r' : Report)
      → IsFair mode s r r'
      → Sent (Asked P start) start mode s sent r
      → Said (Asked P start) start mode s sent r'
  Sent-Said s sent r r' fair v = record {
    allowed = inr (v.added, sends, λ h. (fair.same_gate ∙ (v.permitted h).0, (v.permitted h).1));
    honest = fair.shows;
  }

  pub Sent-stable :
      (s s' : Capture) (sent : List (List ℕ)) (r : Report)
      → s'.tx_boundary ≡ s.tx_boundary
      → Sent (Asked P start) start mode s sent r
      → Sent (Asked P start) start mode s' sent r
  Sent-stable s s' sent r e v = record {
    added = v.added;
    permitted = v.permitted;
    failed = v.failed;
  }

  -- A read that goes wrong ends the exchange.
  heard :
      (t : ℕ) (framed : Bool)
      → Triple ⊥
          (λ b. Has (Sent (Asked P start) start mode) b × From P t b)
          (receive P post_tx framed)
          (λ u b. Has (Sent (Asked P start) start mode) b × From P (suc t) b)
          Fails
  heard t framed =
      Triple-weaken ⊥ _ (λ u b v. v)
        (λ e b v. (
          v.0.1.0,
          Sent-Said b.capture (P.written b.port) b.report b.report
              (unmoved-IsFair mode b.capture b.report v.0.1.1.failed) v.0.1.1,
        ))
        (Triple-both ⊥ _
          (receive-KeepsSteady P ⊥ (λ e. Unit) (Sent (Asked P start) start mode) (anything P)
            Sent-stable post_tx framed)
          (receive-Passes P clock t post_tx framed))

  abbrev Judged : ℕ → Option Report → State P → Type 0
  Judged t verdict b =
      (judge mode b.capture b.report ≡ verdict)
      × Has (Sent (Asked P start) start mode) b
      × From P t b

  pub await-Said :
      (n deadline t : ℕ)
      → 0 < n
      → deadline < t + n
      → Triple ⊥
          (λ b. Has (Sent (Asked P start) start mode) b × From P t b)
          (await P fuel mode g n deadline)
          (λ u. Has (Said (Asked P start) start mode))
          Fails
  unfolding await
  await-Said zero deadline t p h = absurd (omega (arith, p))
  await-Said (suc n) deadline t p h = record {
    at = λ b (v, early). elim (Bool-cases (ltb (P.now b.port) deadline)) [
      | inl e ↦
          let more : P.now b.port < deadline = ground (arith, e) in
          rw (await, e)
            ((Triple-bind ⊥ _ _ (heard (P.now b.port) (not (is_loopback mode))) λ u.
                Triple-bind ⊥ {Mid = Judged (suc (P.now b.port))} _ _
                  (Triple-gets ⊥ (λ b. judge mode b.capture b.report) λ b v. (refl, v.0, v.1))
                  λ verdict. after (suc (P.now b.port)) verdict _ (
                    await-Said n deadline (suc (P.now b.port)) (omega (arith, h, more, early))
                      (omega (arith, h, early)))).at
              b (v, omega arith))
      | inr e ↦
          rw (await, e)
            (
              v.0,
              Sent-Said b.capture (P.written b.port) b.report (conclude mode b.capture b.report)
                  (conclude-IsFair mode b.capture b.report v.1.failed) v.1,
            )
    ];
  }
    where
      after :
          (t : ℕ) (verdict : Option Report) (rest : Exec (State P) (Unit {0}))
          → Triple ⊥
              (λ b. Has (Sent (Asked P start) start mode) b × From P t b)
              rest
              (λ u. Has (Said (Asked P start) start mode))
              Fails
          → Triple ⊥
              (Judged t verdict)
              (judged_or P fuel mode g verdict rest)
              (λ u. Has (Said (Asked P start) start mode))
              Fails
      after t none rest k = Triple-strengthen ⊥ _ (λ b v. (v.1, v.2)) k
      after t (some r) rest k =
          Triple-modify ⊥ (λ b. record b { report = r })
            λ b v. (
              v.1.0,
              Sent-Said b.capture (P.written b.port) b.report r
                  (judge-IsFair mode b.capture b.report r v.1.1.failed v.0) v.1.1,
            )
