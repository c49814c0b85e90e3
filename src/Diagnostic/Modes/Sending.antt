-- ===== src/Diagnostic/Modes/Sending.antt =====
-- run_diagnostic of src/lms200/hardware_diagnostic.py from the sample before the telegram on.
use gepruft_lidar.Prelude.{
  ℕ, ◌+◌, ◌≤◌, ◌<◌, ◌≡◌, refl, ◌∙◌, ap, inl, Bool, true, false, not, ◌==◌, Option, none, some, List,
  [], ◌∷◌, ◌++◌, arith, length, subst, if◌then◌else◌,
}
use gepruft_lidar.Prelude.Result.{Error, os_error}
use gepruft_lidar.Diagnostic.Capture.{Capture, is_past}
use gepruft_lidar.Diagnostic.Capture.Evidence.{IsSettled}
use gepruft_lidar.Diagnostic.Bench.{Port, enter, now, sample}
use gepruft_lidar.Diagnostic.Bench.Rules.{
  anything, IsClock, Timely, Broken, sample-KeepsSteady, flush_output-KeepsSteady,
}
use gepruft_lidar.Diagnostic.Bench.Closing.{transmit-Triple, enter-Triple}
use gepruft_lidar.Diagnostic.Bench.Clock.{clock-Timely}
use gepruft_lidar.Diagnostic.Modes.{await, send}
use gepruft_lidar.Diagnostic.Decisions.{
  Mode, Gates, Report, State, listen_startup, status, loopback, direct_test, is_direct, is_loopback,
  request_of, window_of, set_boundary, attempted, written_down,
}
use gepruft_lidar.Diagnostic.Modes.Window.{
  Asked, Unsent, Sent, Said, Has, Fails, Sent-Said, unmoved-IsFair, await-Said,
}
use gepruft_lidar.Device.Exec.{Exec, pure, raise, modify, ◌>>=◌}
use gepruft_lidar.Device.Exec.Triple.{
  Triple, Triple-bind, Triple-modify, Triple-pure, Triple-raise, Triple-weaken,
}

-- The boundary is set while there is no status.
pub set_boundary-IsSettled :
    (s : Capture) → s.tx_boundary ≡ none → IsSettled s → IsSettled (set_boundary s)
set_boundary-IsSettled s e v = record {
  empty = v.empty;
  evidence = v.evidence;
  credible = ((λ i h. absurd (past _ (v.credible.0 i h).past)), v.credible.1);
}
  where
    past : (o : ℕ) → is_past s.tx_boundary o ≡ true → ⊥
    past o p = opposite (subst (λ (t : Option ℕ). is_past t o ≡ true) e p)
      where
        opposite : false ≡ true → ⊥
        opposite x = cc

module _ (A : Type 0) (start : List (List ℕ)) (mode : Mode) where
  pub Unsent-stable :
      (s s' : Capture) (sent : List (List ℕ)) (r : Report)
      → s'.tx_boundary ≡ s.tx_boundary
      → Unsent A start mode s sent r
      → Unsent A start mode s' sent r
  Unsent-stable s s' sent r e v = record {
    kept = v.kept;
    boundary = e ∙ v.boundary;
    asked = v.asked;
    failed = v.failed;
  }

  pub Unsent-Said :
      (s : Capture) (sent : List (List ℕ)) (r : Report)
      → Unsent A start mode s sent r
      → Said A start mode s sent r
  Unsent-Said s sent r v = record { allowed = inl v.kept; honest = λ h. cc }

  -- Where a telegram may follow.
  abbrev pub Cleared : Capture → List (List ℕ) → Report → Type 0
  Cleared s sent r =
      Unsent A start mode s sent r × (is_direct mode ≡ true → r.startup_complete_confirmed ≡ true)

  Cleared-stable :
      (s s' : Capture) (sent : List (List ℕ)) (r : Report)
      → s'.tx_boundary ≡ s.tx_boundary
      → Cleared s sent r
      → Cleared s' sent r
  Cleared-stable s s' sent r e (v, h) = (Unsent-stable s s' sent r e v, h)

  -- With the boundary set.
  record Marked (s : Capture) (sent : List (List ℕ)) (r : Report) : Type 0 where
    kept : sent ≡ start
    permitted : is_direct mode ≡ true → (r.startup_complete_confirmed ≡ true) × A
    failed : r.success ≡ false

  -- Entries of the report that no other entry depends on.
  Sent-enter :
      (s : Capture) (sent : List (List ℕ)) (r r' : Report)
      → r'.startup_complete_confirmed ≡ r.startup_complete_confirmed
      → r'.success ≡ r.success
      → Sent A start mode s sent r
      → Sent A start mode s sent r'
  Sent-enter s sent r r' c f v = record {
    added = v.added;
    permitted = λ h. (c ∙ (v.permitted h).0, (v.permitted h).1);
    failed = f ∙ v.failed;
  }

window_of-≤ : (mode : Mode) → window_of mode ≤ 5000
window_of-≤ listen_startup = omega arith
window_of-≤ status = omega arith
window_of-≤ loopback = omega arith
window_of-≤ direct_test = omega arith

module _ (P : Port) (fuel : ℕ) (mode : Mode) (g : Gates) (clock : IsClock P) (enough : 5001 < fuel)
    (sends : mode ≡ listen_startup → ⊥) (start : List (List ℕ)) where
  abbrev Holds : (Capture → List (List ℕ) → Report → Type 0) → State P → Type 0
  Holds J = Has P fuel mode g clock sends start J

  abbrev Wrong : Error → State P → Type 0
  Wrong = Fails P fuel mode g clock sends start

  timely : Timely P Report ⊥ fuel 5000
  timely = clock-Timely P clock fuel 5000 (omega (arith, enough))

  sampled :
      Triple ⊥
        (Holds (Cleared (Asked P start) start mode))
        (sample P fuel (not (is_loopback mode)))
        (λ u. Holds (Cleared (Asked P start) start mode))
        Wrong
  sampled =
      Triple-weaken ⊥ _ (λ u b v. v)
        (λ e b v. (
          v.1.0,
          Unsent-Said (Asked P start) start mode b.capture (P.written b.port) b.report v.1.1.0,
        ))
        (sample-KeepsSteady P (λ e. Unit) (Cleared (Asked P start) start mode) (anything P) ⊥ fuel
          5000 (not (is_loopback mode)) (Cleared-stable (Asked P start) start mode) timely
          (omega arith))

  -- A failure once the telegram is out.
  after-Sent :
      {A : Type 0} (J : Capture → List (List ℕ) → Report → Type 0) (m : Exec (State P) A)
      → Triple ⊥
          (Holds J)
          m
          (λ a. Holds (Sent (Asked P start) start mode))
          (Broken P ⊥ (λ e. Unit) (Sent (Asked P start) start mode))
      → Triple ⊥ (Holds J) m (λ a. Holds (Sent (Asked P start) start mode)) Wrong
  after-Sent J m t =
      Triple-weaken ⊥ _ (λ a b v. v)
        (λ e b v. (
          v.1.0,
          Sent-Said P fuel mode g clock sends start b.capture (P.written b.port) b.report b.report
              (unmoved-IsFair mode b.capture b.report v.1.1.failed) v.1.1,
        ))
        t

  enter-Sent :
      (f : Report → Report)
      → ((r : Report)
          → ((f r).startup_complete_confirmed ≡ r.startup_complete_confirmed)
            × ((f r).success ≡ r.success))
      → Triple ⊥
          (Holds (Sent (Asked P start) start mode))
          (modify (enter f))
          (λ u. Holds (Sent (Asked P start) start mode))
          Wrong
  enter-Sent f h =
      enter-Triple P ⊥ (λ e. Unit) (Sent (Asked P start) start mode)
        (Sent (Asked P start) start mode) f
        (λ s sent r j. Sent-enter (Asked P start) start mode s sent r (f r) (h r).0 (h r).1 j)

  awaited :
      Triple ⊥
        (Holds (Sent (Asked P start) start mode))
        (now P >>= λ started. await P fuel mode g fuel (started + window_of mode))
        (λ u. Holds (Said (Asked P start) start mode))
        Wrong
  unfolding now ◌>>=◌
  awaited = record {
    at = λ b v.
        (await-Said P fuel mode g clock sends start fuel (P.now b.port + window_of mode)
            (P.now b.port) (omega (arith, enough)) (omega (arith, enough, window_of-≤ mode))).at
          b (v, omega arith);
  }

  pub send-Said :
      Triple ⊥
        (Holds (Cleared (Asked P start) start mode))
        (send P fuel mode g)
        (λ u. Holds (Said (Asked P start) start mode))
        Wrong
  unfolding send
  send-Said = Triple-bind ⊥ _ _ sampled λ u.
      Triple-bind ⊥ {Mid = λ u. Holds (Marked (Asked P start) start mode)} _ _
        (Triple-modify ⊥
          (λ b. record b {
            capture = set_boundary b.capture;
            report = attempted (request_of mode) b.report;
          })
          λ b v. (
            set_boundary-IsSettled b.capture v.1.0.boundary v.0,
            record {
              kept = v.1.0.kept;
              permitted = λ h. (v.1.1 h, v.1.0.asked (v.1.1 h));
              failed = v.1.0.failed;
            },
          ))
        λ u'.
          Triple-bind ⊥ _ _
            (after-Sent (Marked (Asked P start) start mode) _ (
              transmit-Triple P ⊥ (λ e. Unit) (Marked (Asked P start) start mode)
                (Sent (Asked P start) start mode) (anything P) (request_of mode)
                (λ s sent r j. record {
                  added = ap (λ (l : List (List ℕ)). l ++ request_of mode ∷ []) j.kept;
                  permitted = j.permitted;
                  failed = j.failed;
                })))
            λ written.
              Triple-bind ⊥ _ _ (enter-Sent (written_down written) (λ r. (refl, refl))) λ u2.
                Triple-bind ⊥ _ _ (complete (written == length (request_of mode))) λ u3.
                  Triple-bind ⊥ _ _
                    (enter-Sent (λ r. record r { flush_attempted = true }) (λ r. (refl, refl)))
                    λ u4.
                      Triple-bind ⊥ _ _
                        (after-Sent (Sent (Asked P start) start mode) _ (
                          flush_output-KeepsSteady P (λ e. Unit) (Sent (Asked P start) start mode)
                            (anything P) ⊥))
                        λ u5.
                          Triple-bind ⊥ _ _
                            (enter-Sent (λ r. record r { flush_completed = some true })
                              (λ r. (refl, refl)))
                            λ u6. awaited
    where
      complete :
          (c : Bool)
          → Triple ⊥
              (Holds (Sent (Asked P start) start mode))
              (if c then pure tt else raise os_error)
              (λ u. Holds (Sent (Asked P start) start mode))
              Wrong
      complete true = Triple-pure ⊥ tt λ b v. v
      complete false = Triple-raise ⊥ os_error λ b v. (
        v.0,
        Sent-Said P fuel mode g clock sends start b.capture (P.written b.port) b.report b.report
            (unmoved-IsFair mode b.capture b.report v.1.failed) v.1,
      )
