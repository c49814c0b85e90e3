-- ===== src/Diagnostic/Reset/Once.antt =====
-- `run` of src/lms200/reset_experiment.py resets the scanner once at most, and only as it may.
use gepruft_lidar.Prelude.{
  ℕ, ◌-◌, ◌<◌, ◌≡◌, refl, ◌∙◌, ap, ◌⊎◌, inl, inr, Bool, true, false, not, ◌||◌, ◌==◌, none, some,
  List, [], ◌∷◌, ◌++◌, arith, ltb, if◌then◌else◌,
}
use gepruft_lidar.Prelude.Result.{Error, value_error, os_error, runtime_error, is_exception}
use gepruft_lidar.Diagnostic.Capture.{Capture, post_tx}
use gepruft_lidar.Diagnostic.Capture
use gepruft_lidar.Diagnostic.Capture.Evidence.{IsSettled}
use gepruft_lidar.Diagnostic.Bench.{Port, Bench, enter, has_crc, finally}
use gepruft_lidar.Diagnostic.Bench.Rules.{
  anything, IsClock, Timely, Steady, Broken, KeepsSteady, io-Triple, io-KeepsSteady,
  window-KeepsSteady, sample-KeepsSteady, flush_output-KeepsSteady,
}
use gepruft_lidar.Diagnostic.Bench.Closing.{
  IsFromClose, transmit-Triple, enter-Triple, close-Triple, finally-Triple,
}
use gepruft_lidar.Diagnostic.Bench.Clock.{clock-Timely}
use gepruft_lidar.Diagnostic.Decisions.{set_boundary}
use gepruft_lidar.Diagnostic.Modes.Sending.{set_boundary-IsSettled}
use gepruft_lidar.Diagnostic.Reset.{
  Report, State, reset_request, blank, observed, keep_failure, note_closed, exchange, on_failure,
  finish, run,
}
use gepruft_lidar.Device.Exec.{Exec, pure, raise, catch, modify}
use gepruft_lidar.Device.Exec.Triple.{
  Triple, Ending-any, Triple-bind, Triple-modify, Triple-pure, Triple-raise, Triple-catch,
  Triple-guard, Triple-assume, Triple-weaken,
}

-- Nothing sent, and one reset.
abbrev pub IsOneReset : List (List ℕ) → List (List ℕ) → Type 0
IsOneReset before after = (after ≡ before) ⊎ (after ≡ before ++ reset_request ∷ [])

module _ (P : Port) (fuel : ℕ) (clock : IsClock P) (enough : 65001 < fuel)
    (start : List (List ℕ)) where
  timely : Timely P Report ⊥ fuel 65000
  timely = clock-Timely P clock fuel 65000 (omega (arith, enough))

  abbrev On : (Capture → List (List ℕ) → Report → Type 0) → State P → Type 0
  On J = Steady P ⊥ (λ e. Unit) J

  abbrev Before : Capture → List (List ℕ) → Report → Type 0
  Before s sent r = (sent ≡ start) × (s.tx_boundary ≡ none)

  abbrev Bounded : Capture → List (List ℕ) → Report → Type 0
  Bounded s sent r = sent ≡ start

  abbrev After : Capture → List (List ℕ) → Report → Type 0
  After s sent r = sent ≡ start ++ reset_request ∷ []

  abbrev Once : Capture → List (List ℕ) → Report → Type 0
  Once s sent r = IsOneReset start sent

  abbrev Fails : Error → State P → Type 0
  Fails e b = On Once b

  -- Steps before and behind the reset.
  early :
      {A : Type 0} (m : Exec (State P) A)
      → KeepsSteady P ⊥ (λ e. Unit) Before m
      → Triple ⊥ (On Before) m (λ a. On Before) Fails
  early m t = Triple-weaken ⊥ _ (λ a b v. v) (λ e b v. (v.1.0, inl v.1.1.0)) t

  late :
      {A : Type 0} (J : Capture → List (List ℕ) → Report → Type 0) (m : Exec (State P) A)
      → Triple ⊥ (On J) m (λ a. On After) (Broken P ⊥ (λ e. Unit) After)
      → Triple ⊥ (On J) m (λ a. On After) Fails
  late J m t = Triple-weaken ⊥ _ (λ a b v. v) (λ e b v. (v.1.0, inr v.1.1)) t

  complete :
      (c : Bool) → Triple ⊥ (On After) (if c then pure tt else raise os_error) (λ u. On After) Fails
  complete true = Triple-pure ⊥ tt λ b v. v
  complete false = Triple-raise ⊥ os_error λ b v. (v.0, inr v.1)

  exchange-Once : Triple ⊥ (On Before) (exchange P fuel) (λ u. On Once) Fails
  unfolding exchange
  exchange-Once =
      Triple-bind ⊥ _ _
        (early _
          (io-KeepsSteady P ⊥ (λ e. Unit) Before P.open_port P.open_port_keeps (λ s e x. tt)))
        λ u.
          Triple-bind ⊥ _ _
            (early _ (
              sample-KeepsSteady P (λ e. Unit) Before (anything P) ⊥ fuel 65000 true
                (λ s s' sent r e v. (v.0, e ∙ v.1)) timely (omega arith)))
            λ u'.
              Triple-bind ⊥ {Mid = λ u. On Bounded} _ _
                (Triple-modify ⊥ (λ b. record b { capture = set_boundary b.capture })
                  λ b v. (set_boundary-IsSettled b.capture v.1.1 v.0, v.1.0))
                λ u2.
                  Triple-bind ⊥ _ _
                    (late Bounded _ (
                      transmit-Triple P ⊥ (λ e. Unit) Bounded After (anything P) reset_request
                        (λ s sent r e. ap (λ (l : List (List ℕ)). l ++ reset_request ∷ []) e)))
                    λ written.
                      Triple-bind ⊥ _ _
                        (enter-Triple P ⊥ (λ e. Unit) After After
                          (λ r. record r { write_count = some written }) (λ s sent r e. e))
                        λ u3. Triple-bind ⊥ _ _ (complete (written == 7)) λ u4.
                          Triple-bind ⊥ _ _
                            (late After _
                              (flush_output-KeepsSteady P (λ e. Unit) After (anything P) ⊥))
                            λ u5.
                              Triple-bind ⊥ _ _
                                (enter-Triple P ⊥ (λ e. Unit) After After
                                  (λ r. record r { flush_completed = true }) (λ s sent r e. e))
                                λ u6.
                                  Triple-weaken ⊥ _ (λ a b v. (v.0, inr v.1)) (λ e b v. v)
                                    (late After _ (
                                      window-KeepsSteady P (λ e. Unit) After (anything P) ⊥ fuel
                                        65000 (λ started time. ltb (time - started) 65000) post_tx
                                        true 65000 (λ s s' sent r e v. v) timely (omega arith)
                                        (λ started t h. ground (arith, h))))

  finish-Once :
      Triple ⊥
        (On Once)
        (finish P fuel)
        (λ u. On Once)
        (λ e b. IsFromClose P is_exception e × On Once b)
  unfolding finish
  finish-Once =
      Triple-bind ⊥ _ _
        (close-Triple P ⊥ (λ e. Unit) Once Once is_exception keep_failure note_closed
          (λ e s sent r j. j) (λ c s sent r j. j))
        λ u. Triple-modify ⊥ (λ b. enter (observed b.capture) b) λ b v. v

  whole-Once :
      Triple ⊥
        (On Before)
        (finally (catch (exchange P fuel) (on_failure P fuel)) (finish P fuel))
        (λ u. On Once)
        (λ e b. (⊥ × On Once b) ⊎ (IsFromClose P is_exception e × On Once b))
  unfolding on_failure
  whole-Once =
      finally-Triple ⊥ _ _
        (Triple-catch ⊥ {Mid = λ e. On Once} _ _ exchange-Once
          λ e. Triple-modify ⊥ (enter λ r. record r { failure = some e }) λ b v. v)
        finish-Once

  abbrev Untouched : State P → Type 0
  Untouched b = (P.written b.port) ≡ start

  -- What holds of a run that raises: it was refused, or the port's closing was interrupted.
  abbrev Thrown : Error → State P → Type 0
  Thrown e b = Untouched b ⊎ (IsFromClose P is_exception e × On Once b)

  prepared :
      Triple ⊥ Untouched
        (modify λ b. record b { capture = Capture.init; report = blank })
        (λ u. On Before)
        Thrown
  prepared =
      Triple-modify ⊥ (λ b. record b { capture = Capture.init; report = blank })
        λ b e.
          (record { empty = refl; evidence = tt; credible = ((λ i h. cc), (λ i h. cc)) }, (e, refl))

  abbrev IsPermitted : Bool → Bool → Bool → Type 0
  IsPermitted native confirmed_reset confirmed_hardware =
      (native ≡ true) × (not (not confirmed_reset || not confirmed_hardware) ≡ true)

  run-Once :
      (native confirmed_reset confirmed_hardware : Bool)
      → Triple ⊥ Untouched
          (run P fuel native confirmed_reset confirmed_hardware)
          (λ u b. IsPermitted native confirmed_reset confirmed_hardware × On Once b)
          (λ e b. Untouched b ⊎ (IsPermitted native confirmed_reset confirmed_hardware × On Once b))
  unfolding run
  run-Once native confirmed_reset confirmed_hardware =
      Triple-bind ⊥ _ _
        (Triple-guard ⊥ (not (not confirmed_reset || not confirmed_hardware)) value_error
          λ b p. inl p)
        λ u. Triple-bind ⊥ _ _ (Triple-guard ⊥ native runtime_error λ b p. inl p.1) λ u2.
          Triple-bind ⊥ _ _ (Triple-guard ⊥ (has_crc reset_request) value_error λ b p. inl p.1.1)
            λ u3. Triple-assume ⊥ _ _ λ crc. Triple-assume ⊥ _ _ λ windows.
              Triple-assume ⊥ _ _ λ confirmed.
                Triple-bind ⊥ {Mid = λ u. Untouched} _ _
                  (Triple-weaken ⊥ _ (λ u b v. v) (λ e b v. inl v)
                    (io-Triple P ⊥ Untouched P.create_log P.create_log_keeps (λ b s e v. e ∙ v)))
                  λ u4.
                    Triple-weaken ⊥ _ (λ u b v. ((windows, confirmed), v))
                      (λ e b v. thrown confirmed windows e b v)
                      (Triple-bind ⊥ _ _ prepared λ u5.
                        Triple-weaken ⊥ _ (λ u b v. v) (λ e b v. inr (closed e b v)) whole-Once)
    where
      closed :
          (e : Error) (b : State P)
          → (⊥ × On Once b) ⊎ (IsFromClose P is_exception e × On Once b)
          → IsFromClose P is_exception e × On Once b
      closed e b (inl (never, v)) = absurd never
      closed e b (inr v) = v

      thrown :
          not (not confirmed_reset || not confirmed_hardware) ≡ true
          → native ≡ true
          → (e : Error) (b : State P) → Thrown e b
          → Untouched b ⊎ (IsPermitted native confirmed_reset confirmed_hardware × On Once b)
      thrown c w e b (inl x) = inl x
      thrown c w e b (inr (x, v)) = inr ((w, c), v)

-- What a run has written.
abbrev pub IsConfirmedOnce : List (List ℕ) → Bool → Bool → Bool → List (List ℕ) → Type 0
IsConfirmedOnce before native confirmed_reset confirmed_hardware after =
    (after ≡ before)
    ⊎ ((after ≡ before ++ reset_request ∷ [])
        × (native ≡ true)
        × (confirmed_reset ≡ true)
        × (confirmed_hardware ≡ true))

confirmed : (a b : Bool) → not (not a || not b) ≡ true → (a ≡ true) × (b ≡ true)
confirmed true true h = (refl, refl)
confirmed true false h = cc
confirmed false b h = cc

-- If reads take time and the fuel is more than the 65001 milliseconds of the window, then however
-- `run` of the reset experiment ends, whatever the port does and raises: it has written nothing, or
-- the reset request once, and that only on Windows and with both of the operator's confirmations.
pub run-IsConfirmedOnce :
    (P : Port) (fuel : ℕ) (native confirmed_reset confirmed_hardware : Bool)
    (b : Bench P.State Report)
    → IsClock P
    → 65001 < fuel
    → IsConfirmedOnce
        (P.written b.port)
        native
        confirmed_reset
        confirmed_hardware
        (P.written (run P fuel native confirmed_reset confirmed_hardware b).1.port)
run-IsConfirmedOnce P fuel native confirmed_reset confirmed_hardware b clock enough =
    Ending-any
      (λ b'.
        IsConfirmedOnce (P.written b.port) native confirmed_reset confirmed_hardware
          (P.written b'.port))
      (run P fuel native confirmed_reset confirmed_hardware b).0
      (run P fuel native confirmed_reset confirmed_hardware b).1
      ((Triple-weaken ⊥ (run P fuel native confirmed_reset confirmed_hardware)
          (λ u b' v. told b' v.0 v.1.1) failed
          (run-Once P fuel clock enough (P.written b.port) native confirmed_reset
            confirmed_hardware)).at
        b refl)
  where
    told :
        (b' : State P)
        → (native ≡ true) × (not (not confirmed_reset || not confirmed_hardware) ≡ true)
        → IsOneReset (P.written b.port) (P.written b'.port)
        → IsConfirmedOnce
            (P.written b.port)
            native
            confirmed_reset
            confirmed_hardware
            (P.written b'.port)
    told b' (w, h) (inl x) = inl x
    told b' (w, h) (inr x) =
        let (c, d) = confirmed confirmed_reset confirmed_hardware h in inr (x, w, c, d)

    failed :
        (e : Error) (b' : State P)
        → ((P.written b'.port) ≡ (P.written b.port))
          ⊎ (((native ≡ true) × (not (not confirmed_reset || not confirmed_hardware) ≡ true))
              × (IsSettled b'.capture × IsOneReset (P.written b.port) (P.written b'.port)))
        → IsConfirmedOnce
            (P.written b.port)
            native
            confirmed_reset
            confirmed_hardware
            (P.written b'.port)
    failed e b' (inl x) = inl x
    failed e b' (inr (p, (s, x))) = told b' p x
