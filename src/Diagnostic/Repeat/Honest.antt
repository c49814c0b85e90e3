-- ===== src/Diagnostic/Repeat/Honest.antt =====
-- run_status_repeat of src/lms200/hardware_diagnostic.py sends no more than it may, and its report
-- says what happened.
use gepruft_lidar.Prelude.{
  ℕ, zero, suc, ◌+◌, ◌≤◌, ◌≡◌, refl, sym, ◌∙◌, ap, ◌⊎◌, Bool, true, false, List, arith, length,
  if◌then◌else◌,
}
use gepruft_lidar.Prelude.Result.{Error, is_os_error}
use gepruft_lidar.Diagnostic.Capture.{Capture}
use gepruft_lidar.Diagnostic.Bench.{Port, finally}
use gepruft_lidar.Diagnostic.Bench.Rules.{
  Raises, Timely, KeepsSteady, io-KeepsSteady, sample-KeepsSteady,
}
use gepruft_lidar.Diagnostic.Bench.Closing.{IsFromClose, enter-Triple, close-Triple, finally-Triple}
use gepruft_lidar.Diagnostic.Repeat.{
  Attempt, Report, State, amend, change_last, is_caught, fill, stop, keep_failure, note_closed,
  attempts_loop, exchange, on_failure, finish, response_observed,
}
use gepruft_lidar.Diagnostic.Repeat.Attempts.{
  IsQuiet, AllButLast-change_last, length-change_last, Made, Ready, Ready-Made, Ready-stable,
}
use gepruft_lidar.Device.Exec.{Exec, catch}
use gepruft_lidar.Device.Exec.Triple.{
  Triple, Triple-bind, Triple-modify, Triple-if, Triple-raise, Triple-catch, Triple-weaken,
}
use gepruft_lidar.Diagnostic.Repeat.Trial.{At, Failed, Tried, attempt-Tried}

-- A change of what the report says of its end.
stopped :
    (start : List (List ℕ)) (n : ℕ) (s : Capture) (sent : List (List ℕ)) (r r' : Report)
    → r'.attempts ≡ r.attempts
    → r'.success ≡ r.success
    → Made start n s sent r
    → Made start n s sent r'
stopped start n s sent r r' a e v = record {
  count = v.count;
  bound = v.bound;
  sends = v.sends;
  number = ap (λ (l : List Attempt). length l) a ∙ v.number;
  quiet = rw a v.quiet;
  honest = λ h. v.honest (sym e ∙ h);
}

module _ (P : Port) (fuel : ℕ) (Lost : Type 0) (Allowed : Error → Type 0)
    (raises : Raises P Allowed) (timely : Timely P Report Lost fuel 5000)
    (start : List (List ℕ)) where
  abbrev pub Within : (Capture → List (List ℕ) → Report → Type 0) → State P → Type 0
  Within J = At P fuel Lost Allowed raises timely start J

  abbrev Refused : ℕ → Error → State P → Type 0
  Refused n = Failed P fuel Lost Allowed raises timely start n

  further :
      (k n number : ℕ) (answered : Bool) (again : Exec (State P) (Unit {0}))
      → Triple Lost (Within (Ready start (suc k))) again (λ u. Within (Made start n)) (Refused n)
      → Triple Lost
          (Tried P fuel Lost Allowed raises timely start k n answered)
          (if answered then stop P fuel response_observed else again)
          (λ u. Within (Made start n))
          (Refused n)
  further k n number true again t = Triple-modify Lost _ λ b (settled, j).
      (settled, stopped start n b.capture (P.written b.port) b.report _ refl refl j)
  further k n number false again t = t

  attempts_loop-Made :
      (left k number n : ℕ)
      → k + left ≤ n
      → Triple Lost
          (Within (Ready start k))
          (attempts_loop P fuel left number)
          (λ u. Within (Made start n))
          (Refused n)
  unfolding attempts_loop
  attempts_loop-Made zero k number n h = Triple-modify Lost _ λ b (settled, j). (
    settled,
    stopped start n b.capture (P.written b.port) b.report _ refl refl
        (Ready-Made start k n b.capture (P.written b.port) b.report (omega (arith, h)) j),
  )
  attempts_loop-Made (suc left) k number n h =
      Triple-bind Lost _ _
        (attempt-Tried P fuel Lost Allowed raises timely start k n (omega (arith, h)) number)
        λ answered.
          further k n number answered _
            (attempts_loop-Made left (suc k) (suc number) n (omega (arith, h)))

  exchange-Made :
      (n : ℕ)
      → Triple Lost
          (Within (Ready start 0))
          (exchange P fuel n)
          (λ u. Within (Made start n))
          (Refused n)
  unfolding exchange
  exchange-Made n =
      Triple-bind Lost _ _
        (early _ (
          io-KeepsSteady P Lost Allowed (Ready start 0) P.open_port P.open_port_keeps
            raises.open_port))
        λ u.
          Triple-bind Lost _ _ (Triple-modify Lost _ λ b (settled, j). (settled, opened b j)) λ u'.
            Triple-bind Lost _ _
              (early _ (
                sample-KeepsSteady P Allowed _ raises Lost fuel 5000 true (Ready-stable start 0)
                  timely (omega arith)))
              λ u''. attempts_loop-Made n 0 1 n (omega arith)
    where
      opened :
          (b : State P)
          → Ready start 0 b.capture (P.written b.port) b.report
          → Ready start 0 b.capture
              (P.written b.port)
              (record (b.report) { port_opened = true; port_closed = false })
      opened b j = record { sends = j.sends; number = j.number; quiet = j.quiet; failed = j.failed }

      early :
          {A : Type 0} (m : Exec (State P) A)
          → KeepsSteady P Lost Allowed (Ready start 0) m
          → Triple Lost (Within (Ready start 0)) m (λ a. Within (Ready start 0)) (Refused n)
      early m t =
          Triple-weaken Lost m (λ a s x. x)
            (λ e b (x, v). (
              x,
              (v.0, Ready-Made start 0 n b.capture (P.written b.port) b.report (omega arith) v.1),
            ))
            t

  -- The report as it is returned.
  abbrev pub Finished : ℕ → Capture → List (List ℕ) → Report → Type 0
  Finished n s sent r = Made start n s sent r × (r.success ≡ true → r.port_closed ≡ true)

  changed_last :
      (n : ℕ) (f : Attempt → Attempt) (s : Capture) (sent : List (List ℕ)) (r : Report)
      → Made start n s sent r
      → Made start n s sent (record r { attempts = change_last f r.attempts })
  changed_last n f s sent r v = record {
    count = v.count;
    bound = v.bound;
    sends = v.sends;
    number = length-change_last f r.attempts ∙ v.number;
    quiet = AllButLast-change_last IsQuiet f r.attempts v.quiet;
    honest = v.honest;
  }

  -- The last line of `finally`.
  sealed :
      (n : ℕ) (closed : Bool) (s : Capture) (sent : List (List ℕ)) (r : Report)
      → r.port_closed ≡ closed
      → Made start n s sent r
      → Finished n s sent (if closed then r else record r { success = false })
  sealed n true s sent r e v = (v, λ h. e)
  sealed n false s sent r e v = (
    record {
      count = v.count;
      bound = v.bound;
      sends = v.sends;
      number = v.number;
      quiet = v.quiet;
      honest = λ h. cc;
    },
    λ h. cc,
  )

  finish-Finished :
      (n : ℕ)
      → Triple Lost
          (Within (Made start n))
          (finish P fuel)
          (λ u. Within (Finished n))
          (λ e b. IsFromClose P is_os_error e × Within (Made start n) b)
  unfolding finish
  finish-Finished n =
      Triple-bind Lost _ _
        (Triple-modify Lost (λ b. amend (fill b.capture) b)
          λ b (settled, j).
            (settled, changed_last n (fill b.capture) b.capture (P.written b.port) b.report j))
        λ u.
          Triple-bind Lost _ _
            (close-Triple P Lost Allowed (Made start n) (Made start n) is_os_error keep_failure
              note_closed (λ e s sent r j. stopped start n s sent r (keep_failure e r) refl refl j)
              (λ closed s sent r j. stopped start n s sent r (note_closed closed r) refl refl j))
            λ u'.
              enter-Triple P Lost Allowed (Made start n) (Finished n) _
                (λ s sent r j. sealed n r.port_closed s sent r refl j)

  on_failure-Made :
      (n : ℕ) (e : Error)
      → Triple Lost
          (Refused n e)
          (on_failure P fuel e)
          (λ u. Within (Made start n))
          (λ e b. (Allowed e × (is_caught e ≡ false)) × Within (Made start n) b)
  unfolding on_failure
  on_failure-Made n e =
      Triple-if Lost (is_caught e) _ _
        (λ h. Triple-modify Lost _ λ b (x, (settled, j)).
          (settled, stopped start n b.capture (P.written b.port) b.report _ refl refl j))
        (λ h. Triple-raise Lost e λ b (x, v). ((x, h), v))

  -- From the opening of the port to the end.
  pub whole-Finished :
      (n : ℕ)
      → Triple Lost
          (Within (Ready start 0))
          (finally (catch (exchange P fuel n) (on_failure P fuel)) (finish P fuel))
          (λ u. Within (Finished n))
          (λ e b.
            ((Allowed e × (is_caught e ≡ false)) × Within (Finished n) b)
            ⊎ (IsFromClose P is_os_error e × Within (Made start n) b))
  whole-Finished n =
      finally-Triple Lost _ _ (Triple-catch Lost _ _ (exchange-Made n) (on_failure-Made n))
        (finish-Finished n)
