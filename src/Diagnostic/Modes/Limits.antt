-- ===== src/Diagnostic/Modes/Limits.antt =====
-- The `try` block of run_diagnostic of src/lms200/hardware_diagnostic.py as one triple.
use gepruft_lidar.Prelude.{
  ℕ, ◌<◌, ◌≡◌, refl, sym, ◌∙◌, inl, inr, Bool, true, false, ◌&&◌, some, List, arith, if◌then◌else◌,
}
use gepruft_lidar.Prelude.Result.{Error}
use gepruft_lidar.Diagnostic.Capture.{Capture}
use gepruft_lidar.Diagnostic.Bench.{Port, enter}
use gepruft_lidar.Diagnostic.Bench.Rules.{IsClock, io-KeepsSteady}
use gepruft_lidar.Diagnostic.Modes.{send, exchange}
use gepruft_lidar.Diagnostic.Decisions.{
  Mode, Gates, Report, State, listen_startup, status, loopback, direct_test, is_startup, is_direct,
  is_listening, is_loopback, is_sending, is_missing, settle_flags,
}
use gepruft_lidar.Diagnostic.Modes.Window.{Asked, Unsent, Said}
use gepruft_lidar.Diagnostic.Modes.Sending.{Unsent-Said, send-Said}
use gepruft_lidar.Diagnostic.Modes.Passive.{In, Listened, listen_first-Listened}
use gepruft_lidar.Device.Exec.{pure}
use gepruft_lidar.Device.Exec.Triple.{
  Triple, Triple-bind, Triple-modify, Triple-gets, Triple-pure, Triple-if, Triple-weaken,
}

-- Who sends is not listening for a startup, and has what it needs.
sends_of : (mode : Mode) (r : Report) → is_sending mode r ≡ true → mode ≡ listen_startup → ⊥
sends_of listen_startup r e h = cc
sends_of status r e h = cc
sends_of loopback r e h = cc
sends_of direct_test r e h = cc

gate_of :
    (mode : Mode) (r : Report)
    → is_sending mode r ≡ true
    → is_direct mode ≡ true
    → r.startup_complete_confirmed ≡ true
gate_of listen_startup r e h = cc
gate_of status r e h = cc
gate_of loopback r e h = cc
gate_of direct_test r e h = first r.startup_complete_confirmed _ e
  where
    first : (a b : Bool) → (a && b) ≡ true → a ≡ true
    first true b x = refl
    first false b x = cc

not_startup : (mode : Mode) (r : Report) → is_sending mode r ≡ true → is_startup mode ≡ true → ⊥
not_startup listen_startup r e h = cc
not_startup status r e h = cc
not_startup loopback r e h = cc
not_startup direct_test r e h = cc

-- The two entries that the properties read.
pub record IsAlike (r r' : Report) : Type 0 where
  pub same_success : r'.success ≡ r.success
  pub same_gate : r'.startup_complete_confirmed ≡ r.startup_complete_confirmed

either-IsAlike :
    (c : Bool) (r x y : Report) → IsAlike r x → IsAlike r y → IsAlike r (if c then x else y)
either-IsAlike true r x y p q = p
either-IsAlike false r x y p q = q

pub settle_flags-IsAlike : (mode : Mode) (r : Report) → IsAlike r (settle_flags mode r)
settle_flags-IsAlike mode r =
    let r' : Report =
      if r.flush_attempted && is_missing r.flush_completed
      then record r { flush_completed = some false }
      else r in
    let v : IsAlike r r' =
      either-IsAlike (r.flush_attempted && is_missing r.flush_completed) r _ _
        (record { same_success = refl; same_gate = refl })
        (record { same_success = refl; same_gate = refl }) in
    either-IsAlike (is_loopback mode && is_missing r'.loopback_passed && r'.port_opened) r _ _
      (record { same_success = v.same_success; same_gate = v.same_gate }) v

pub Said-alike :
    (A : Type 0) (start : List (List ℕ)) (mode : Mode) (s : Capture) (sent : List (List ℕ))
    (r r' : Report)
    → IsAlike r r'
    → Said A start mode s sent r
    → Said A start mode s sent r'
Said-alike A start mode s sent r r' a v = record {
  allowed = elim v.allowed [
    | inl x ↦ inl x
    | inr (x, y, z) ↦ inr (x, y, λ h. (a.same_gate ∙ (z h).0, (z h).1))
  ];
  honest = λ h. v.honest (sym a.same_success ∙ h);
}

module _ (P : Port) (fuel : ℕ) (mode : Mode) (g : Gates) (clock : IsClock P)
    (enough : 600001 < fuel) (start : List (List ℕ)) where
  abbrev pub Has : (Capture → List (List ℕ) → Report → Type 0) → State P → Type 0
  Has J = In P fuel mode g clock start J

  abbrev pub Wrong : Error → State P → Type 0
  Wrong e b = Has (Said (Asked P start) start mode) b

  ready-Said :
      (c : Bool)
      → Triple ⊥
          (λ b. (is_sending mode b.report ≡ c) × Has (Listened P fuel mode g clock start) b)
          (if c then send P fuel mode g else pure tt)
          (λ u. Has (Said (Asked P start) start mode))
          Wrong
  ready-Said true = record {
    at = λ b v.
        (send-Said P fuel mode g clock (omega (arith, enough)) (sends_of mode b.report v.0)
            start).at
          b (v.1.0, (unsent b v.0 v.1.1, gate_of mode b.report v.0));
  }
    where
      unsent :
          (b : State P)
          → is_sending mode b.report ≡ true
          → Listened P fuel mode g clock start b.capture (P.written b.port) b.report
          → Unsent (Asked P start) start mode b.capture (P.written b.port) b.report
      unsent b e (inl x) = x
      unsent b e (inr (h, x)) = absurd (not_startup mode b.report e h)
  ready-Said false = Triple-pure ⊥ tt λ b v. (v.1.0, said b v.1.1)
    where
      said :
          (b : State P)
          → Listened P fuel mode g clock start b.capture (P.written b.port) b.report
          → Said (Asked P start) start mode b.capture (P.written b.port) b.report
      said b (inl x) =
          Unsent-Said (Asked P start) start mode b.capture (P.written b.port) b.report x
      said b (inr (h, x)) = x

  pub exchange-Said :
      Triple ⊥
        (Has (Unsent (Asked P start) start mode))
        (exchange P fuel mode g)
        (λ u. Has (Said (Asked P start) start mode))
        Wrong
  unfolding exchange
  exchange-Said =
      Triple-bind ⊥ _ _
        (Triple-weaken ⊥ _ (λ u b v. v)
          (λ e b v. (
            v.1.0,
            Unsent-Said (Asked P start) start mode b.capture (P.written b.port) b.report v.1.1,
          ))
          (io-KeepsSteady P ⊥ (λ e. Unit) (Unsent (Asked P start) start mode) P.open_port
            P.open_port_keeps (λ s e x. tt)))
        λ u.
          Triple-bind ⊥ {Mid = λ u. Has (Unsent (Asked P start) start mode)} _ _
            (Triple-modify ⊥ (enter λ r. record r { port_opened = true; port_closed = false })
              λ b v. (
                v.0,
                record {
                  kept = v.1.kept;
                  boundary = v.1.boundary;
                  asked = v.1.asked;
                  failed = v.1.failed;
                },
              ))
            λ u'.
              Triple-bind ⊥ _ _
                (Triple-if ⊥ (is_listening mode) _ _
                  (λ h. listen_first-Listened P fuel mode g clock start enough)
                  (λ h. Triple-pure ⊥ tt λ b v. (v.0, inl v.1)))
                λ u''.
                  Triple-bind ⊥
                    {Mid = λ c b.
                      (is_sending mode b.report ≡ c) × Has (Listened P fuel mode g clock start) b}
                    _ _ (Triple-gets ⊥ (λ b. is_sending mode b.report) λ b v. (refl, v))
                    λ c. ready-Said c
