-- ===== src/Diagnostic/Modes/Safety.antt =====
-- What run_diagnostic of src/lms200/hardware_diagnostic.py may send, and what its success means.
use gepruft_lidar.Prelude.{
  ℕ, ◌<◌, ◌≡◌, ◌∙◌, arith, ◌≢◌, refl, ◌⊎◌, inl, inr, Bool, true, false, not, some, List, [], ◌∷◌,
  ◌++◌, if◌then◌else◌,
}
use gepruft_lidar.Prelude.Result.{
  Error, value_error, protocol_error, device_error, timeout_error, os_error, eof_error, index_error,
  keyboard_interrupt, runtime_error, is_os_error,
}
use gepruft_lidar.Diagnostic.Capture.{Capture, is_present}
use gepruft_lidar.Diagnostic.Capture
use gepruft_lidar.Diagnostic.Bench.{Port, Bench, enter, status_request, has_crc, io, finally}
use gepruft_lidar.Diagnostic.Bench.Rules.{IsClock, io-Triple}
use gepruft_lidar.Diagnostic.Bench.Closing.{IsFromClose, enter-Triple, close-Triple, finally-Triple}
use gepruft_lidar.Diagnostic.Modes.{exchange, on_failure, finish, run_diagnostic}
use gepruft_lidar.Diagnostic.Decisions.{
  Mode, Gates, Report, State, listen_startup, status, loopback, direct_test, operator, echo,
  loopback_pattern, blank, is_direct, is_refused, request_of, settle_flags, unless_closed,
  keep_failure, note_closed,
}
use gepruft_lidar.Diagnostic.Modes.Window.{Asked, Unsent, Said}
use gepruft_lidar.Diagnostic.Modes.Startup.{IsStarted}
use gepruft_lidar.Diagnostic.Repeat.Limits.{IsReplied}
use gepruft_lidar.Device.Exec.{raise, catch, modify}
use gepruft_lidar.Device.Exec.Triple.{
  Triple, Ending-any, Triple-bind, Triple-modify, Triple-raise, Triple-catch, Triple-guard,
  Triple-assume, Triple-weaken,
}
use gepruft_lidar.Diagnostic.Modes.Limits.{
  Has, Wrong, IsAlike, Said-alike, settle_flags-IsAlike, exchange-Said,
}

abbrev Finished : Type 0 → List (List ℕ) → Mode → Capture → List (List ℕ) → Report → Type 0
Finished A start mode s sent r =
    Said A start mode s sent r × (r.success ≡ true → r.port_closed ≡ true)

sealed :
    (A : Type 0) (start : List (List ℕ)) (mode : Mode) (closed : Bool) (s : Capture)
    (sent : List (List ℕ)) (r : Report)
    → r.port_closed ≡ closed
    → Said A start mode s sent r
    → Finished A start mode s sent (if closed then r else record r { success = false })
sealed A start mode true s sent r e v = (v, λ h. e)
sealed A start mode false s sent r e v = (record { allowed = v.allowed; honest = λ h. cc }, λ h. cc)

module _ (P : Port) (fuel : ℕ) (mode : Mode) (g : Gates) (clock : IsClock P)
    (enough : 600001 < fuel) (start : List (List ℕ)) where
  abbrev On : (Capture → List (List ℕ) → Report → Type 0) → State P → Type 0
  On J = Has P fuel mode g clock enough start J

  -- An exception that is not caught leaves what was sent.
  noted :
      (e : Error) (f : Report → Report)
      → ((r : Report) → IsAlike r (f r))
      → Triple ⊥
          (Wrong P fuel mode g clock enough start e)
          (modify (enter f))
          (λ u. On (Said (Asked P start) start mode))
          (λ e b. Unit × On (Said (Asked P start) start mode) b)
  noted e f h = Triple-modify ⊥ (enter f) λ b v. (
    v.0,
    Said-alike (Asked P start) start mode b.capture (P.written b.port) b.report (f b.report)
        (h b.report) v.1,
  )

  handed-Said :
      (e : Error) (c : Bool)
      → Triple ⊥
          (Wrong P fuel mode g clock enough start e)
          (if c then modify (enter λ r. record r { failure = some e }) else raise e)
          (λ u. On (Said (Asked P start) start mode))
          (λ e b. Unit × On (Said (Asked P start) start mode) b)
  handed-Said e true =
      noted e (λ r. record r { failure = some e })
        (λ r. record { same_success = refl; same_gate = refl })
  handed-Said e false = Triple-raise ⊥ e λ b v. (tt, v)

  on_failure-Said :
      (e : Error)
      → Triple ⊥
          (Wrong P fuel mode g clock enough start e)
          (on_failure P fuel mode g e)
          (λ u. On (Said (Asked P start) start mode))
          (λ e b. Unit × On (Said (Asked P start) start mode) b)
  unfolding on_failure
  on_failure-Said keyboard_interrupt =
      noted keyboard_interrupt
        (λ r. record r { failure = some keyboard_interrupt; timeout_reason = some operator })
        (λ r. record { same_success = refl; same_gate = refl })
  on_failure-Said value_error = handed-Said value_error true
  on_failure-Said protocol_error = handed-Said protocol_error true
  on_failure-Said device_error = handed-Said device_error true
  on_failure-Said timeout_error = handed-Said timeout_error true
  on_failure-Said os_error = handed-Said os_error true
  on_failure-Said eof_error = handed-Said eof_error false
  on_failure-Said index_error = handed-Said index_error false
  on_failure-Said runtime_error = handed-Said runtime_error false

  finish-Finished :
      Triple ⊥
        (On (Said (Asked P start) start mode))
        (finish P fuel mode g)
        (λ u. On (Finished (Asked P start) start mode))
        (λ e b. IsFromClose P is_os_error e × On (Said (Asked P start) start mode) b)
  unfolding finish
  finish-Finished =
      Triple-bind ⊥ _ _
        (enter-Triple P ⊥ (λ e. Unit) (Said (Asked P start) start mode)
          (Said (Asked P start) start mode) (settle_flags mode)
          (λ s sent r j.
            Said-alike (Asked P start) start mode s sent r (settle_flags mode r)
              (settle_flags-IsAlike mode r) j))
        λ u.
          Triple-bind ⊥ _ _
            (close-Triple P ⊥ (λ e. Unit) (Said (Asked P start) start mode)
              (Said (Asked P start) start mode) is_os_error keep_failure note_closed
              (λ e s sent r j.
                Said-alike (Asked P start) start mode s sent r (keep_failure e r)
                  (record { same_success = refl; same_gate = refl }) j)
              (λ c s sent r j.
                Said-alike (Asked P start) start mode s sent r (note_closed c r)
                  (record { same_success = refl; same_gate = refl }) j))
            λ u'.
              enter-Triple P ⊥ (λ e. Unit) (Said (Asked P start) start mode)
                (Finished (Asked P start) start mode) unless_closed
                (λ s sent r j. sealed (Asked P start) start mode r.port_closed s sent r refl j)

  abbrev IsReady : State P → Type 0
  IsReady b = On (Unsent (Asked P start) start mode) b

  abbrev Untouched : State P → Type 0
  Untouched b = (P.written b.port) ≡ start

  abbrev IsPermitted : Type 0
  IsPermitted = not (is_refused mode g) ≡ true

  whole-Finished :
      Triple ⊥ IsReady
        (finally (catch (exchange P fuel mode g) (on_failure P fuel mode g)) (finish P fuel mode g))
        (λ u. On (Finished (Asked P start) start mode))
        (λ e. On (Said (Asked P start) start mode))
  whole-Finished =
      Triple-weaken ⊥ _ (λ u b v. v) failed
        (finally-Triple ⊥ _ _
          (Triple-catch ⊥ _ _ (exchange-Said P fuel mode g clock enough start) on_failure-Said)
          finish-Finished)
    where
      failed :
          (e : Error) (b : State P)
          → (Unit {0} × On (Finished (Asked P start) start mode) b)
            ⊎ (IsFromClose P is_os_error e × On (Said (Asked P start) start mode) b)
          → On (Said (Asked P start) start mode) b
      failed e b (inl (u, v)) = (v.0, v.1.0)
      failed e b (inr (x, v)) = v

  run-Finished :
      Triple ⊥ Untouched
        (run_diagnostic P fuel mode g)
        (λ u b. IsPermitted × On (Finished (Asked P start) start mode) b)
        (λ e b. Untouched b ⊎ (IsPermitted × On (Said (Asked P start) start mode) b))
  unfolding run_diagnostic
  run-Finished =
      Triple-bind ⊥ _ _ (Triple-guard ⊥ (not (is_refused mode g)) value_error λ b p. inl p) λ u.
        Triple-bind ⊥ _ _ (Triple-guard ⊥ (has_crc status_request) value_error λ b p. inl p.1) λ u'.
          Triple-assume ⊥ _ _ λ crc. Triple-assume ⊥ _ _ λ permitted.
            Triple-bind ⊥ {Mid = λ u. Untouched} _ _ logged λ u''.
              Triple-bind ⊥ {Mid = λ u. IsReady} _ _
                (Triple-modify ⊥ (λ b. record b { capture = Capture.init; report = blank })
                  λ b e. (
                    record { empty = refl; evidence = tt; credible = ((λ i h. cc), (λ i h. cc)) },
                    record { kept = e; boundary = refl; asked = (λ h. cc); failed = refl },
                  ))
                λ u3.
                  Triple-weaken ⊥ _ (λ u b v. (permitted, v)) (λ e b v. inr (permitted, v))
                    whole-Finished
    where
      logged :
          {Q : Error → State P → Type 0}
          → Triple ⊥ Untouched (io P P.create_log) (λ u. Untouched) (λ e b. Untouched b ⊎ Q e b)
      logged =
          Triple-weaken ⊥ _ (λ u b v. v) (λ e b v. inl v)
            (io-Triple P ⊥ Untouched P.create_log P.create_log_keeps (λ b s e v. e ∙ v))

-- What a mode asks for at the head: for the loopback that its isolation is confirmed, for the modes
-- that listen a test for the power, and for direct-test also that the direct connection is confirmed
-- and a test for the end of the startup.
abbrev pub IsGated : Mode → Gates → Type 0
IsGated loopback g = g.isolated ≡ true
IsGated listen_startup g = g.power ≡ true
IsGated direct_test g = (g.power ≡ true) × (g.direct ≡ true) × (g.complete ≡ true)
IsGated status g = Unit

refused-IsGated : (mode : Mode) (g : Gates) → is_refused mode g ≡ false → IsGated mode g
refused-IsGated loopback g h = ground (arith, h)
refused-IsGated listen_startup g h = ground (arith, h)
refused-IsGated direct_test g h = ground (arith, h)
refused-IsGated status g h = tt

-- What a run has written.
abbrev pub IsOneAtMost : (P : Port) → List (List ℕ) → Mode → Gates → List (List ℕ) → Report → Type 0
IsOneAtMost P before mode g after r =
    (after ≡ before)
    ⊎ ((after ≡ before ++ request_of mode ∷ [])
        × IsGated mode g
        × (mode ≢ listen_startup)
        × (is_direct mode ≡ true → (r.startup_complete_confirmed ≡ true) × Asked P before))

-- If reads take time and the fuel is more than the 600001 milliseconds of the longest wait, then
-- however a run of run_diagnostic ends, whatever the port does and raises: it has written nothing,
-- or it has called `write` once, with the loopback pattern in the mode for it and the status
-- request in the others. Then the mode is not listen-startup; the isolation of a loopback, or the
-- direct connection of a direct-test, was confirmed, and what else the mode asks for at the head
-- was given; and in direct-test the test for the end of the startup had answered yes while nothing
-- had been written.
pub run_diagnostic-IsOneAtMost :
    (P : Port) (fuel : ℕ) (mode : Mode) (g : Gates) (b : Bench P.State Report)
    → IsClock P
    → 600001 < fuel
    → IsOneAtMost P
        (P.written b.port)
        mode
        g
        (P.written (run_diagnostic P fuel mode g b).1.port)
        (run_diagnostic P fuel mode g b).1.report
run_diagnostic-IsOneAtMost P fuel mode g b clock enough =
    Ending-any (λ b'. IsOneAtMost P (P.written b.port) mode g (P.written b'.port) b'.report)
      (run_diagnostic P fuel mode g b).0 (run_diagnostic P fuel mode g b).1
      ((Triple-weaken ⊥ (run_diagnostic P fuel mode g) (λ u b' v. told b' v.0 v.1.1.0) failed
          (run-Finished P fuel mode g clock enough (P.written b.port))).at
        b refl)
  where
    unrefused : (c : Bool) → not c ≡ true → c ≡ false
    unrefused true h = cc
    unrefused false h = refl

    told :
        (b' : State P)
        → not (is_refused mode g) ≡ true
        → Said
            (Asked P (P.written b.port))
            (P.written b.port)
            mode
            b'.capture
            (P.written b'.port)
            b'.report
        → IsOneAtMost P (P.written b.port) mode g (P.written b'.port) b'.report
    told b' h v = elim v.allowed [
      | inl x ↦ inl x
      | inr (x, y, z) ↦ inr (x, refused-IsGated mode g (unrefused (is_refused mode g) h), y, z)
    ]

    failed :
        (e : Error) (b' : State P)
        → ((P.written b'.port) ≡ (P.written b.port))
          ⊎ ((not (is_refused mode g) ≡ true)
              × Has P fuel mode g clock enough
                  (P.written b.port)
                  (Said (Asked P (P.written b.port)) (P.written b.port) mode)
                  b')
        → IsOneAtMost P (P.written b.port) mode g (P.written b'.port) b'.report
    failed e b' (inl x) = inl x
    failed e b' (inr (h, v)) = told b' h v.1

-- What a success of a mode means: a startup telegram with an identity, the echo of the whole
-- pattern and nothing else, or a decoded status from behind the request, with an ACK and without a
-- NAK.
abbrev pub IsShown : Mode → Capture → Type 0
IsShown listen_startup s = IsStarted s
IsShown loopback s = echo s ≡ loopback_pattern
IsShown _ s = IsReplied s
