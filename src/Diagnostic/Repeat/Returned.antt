-- ===== src/Diagnostic/Repeat/Returned.antt =====
-- run_status_repeat of src/lms200/hardware_diagnostic.py as one triple.
use gepruft_lidar.Prelude.{
  ℕ, ◌≤◌, ◌<◌, ◌≡◌, refl, sym, ◌∙◌, ◌⊎◌, inl, inr, Bool, true, false, ◌&&◌, List, arith, leb,
  append-nil,
}
use gepruft_lidar.Prelude.Result.{Error, value_error, is_os_error}
use gepruft_lidar.Diagnostic.Capture.{Capture, Detail, is_present, is_past, post_tx}
use gepruft_lidar.Diagnostic.Bench.{Port, status_request, has_crc, io}
use gepruft_lidar.Diagnostic.Bench.Rules.{Raises, Timely, io-KeepsSteady}
use gepruft_lidar.Diagnostic.Bench.Closing.{IsFromClose}
use gepruft_lidar.Diagnostic.Repeat.{Report, State, is_caught, blank, run_status_repeat}
use gepruft_lidar.Diagnostic.Repeat.Attempts.{Made, Ready}
use gepruft_lidar.Device.Exec.Triple.{
  Triple, Triple-bind, Triple-modify, Triple-guard, Triple-assume, Triple-weaken,
}
use gepruft_lidar.Diagnostic.Bench.Rules.{IsClock}
use gepruft_lidar.Diagnostic.Bench.Clock.{clock-Timely}
use gepruft_lidar.Diagnostic.Repeat.Honest.{Within, Finished, whole-Finished}
use gepruft_lidar.Diagnostic.Capture

module _ (P : Port) (fuel : ℕ) (Allowed : Error → Type 0) (raises : Raises P Allowed)
    (clock : IsClock P) (enough : 5001 < fuel) (start : List (List ℕ)) where
  pub timely : Timely P Report ⊥ fuel 5000
  timely = clock-Timely P clock fuel 5000 (omega (arith, enough))

  abbrev pub Final : ℕ → State P → Type 0
  Final n =
      Within P fuel ⊥ Allowed raises timely start (Finished P fuel ⊥ Allowed raises timely start n)

  abbrev pub Midway : ℕ → State P → Type 0
  Midway n = Within P fuel ⊥ Allowed raises timely start (Made start n)

  -- The ways to raise from the opening of the port on.
  abbrev pub Thrown : ℕ → Error → State P → Type 0
  Thrown n e b =
      ((Allowed e × (is_caught e ≡ false)) × Final n b) ⊎ (IsFromClose P is_os_error e × Midway n b)

  abbrev pub Untouched : State P → Type 0
  Untouched b = (P.written b.port) ≡ start

  abbrev pub IsPermitted : ℕ → Bool → Type 0
  IsPermitted n confirmed = (confirmed ≡ true) × (n ≤ 10)

  up_to_ten : (n : ℕ) → (leb 1 n && leb n 10) ≡ true → n ≤ 10
  up_to_ten n h = ground (arith, h)

  abbrev pub Before : State P → Type 0
  Before b = Within P fuel ⊥ Allowed raises timely start (Ready start 0) b

  pub blank_Ready :
      (b : State P) → Untouched b → Before (record b { capture = Capture.init; report = blank })
  blank_Ready b e = (
    record { empty = refl; evidence = tt; credible = ((λ i h. cc), (λ i h. cc)) },
    record { sends = e ∙ sym (append-nil start); number = refl; quiet = tt; failed = refl },
  )

  logged :
      {Q : Error → State P → Type 0}
      → Triple ⊥ Before (io P P.create_log) (λ u. Before) (λ e b. Untouched b ⊎ Q e b)
  logged =
      Triple-weaken ⊥ _ (λ a b v. v) (λ e b v. inl (v.1.1.sends ∙ append-nil start))
        (io-KeepsSteady P ⊥ (λ e. Unit) (Ready start 0) P.create_log P.create_log_keeps
          (λ s e x. tt))

  pub run-Final :
      (n : ℕ) (confirmed : Bool)
      → Triple ⊥ Untouched
          (run_status_repeat P fuel n confirmed)
          (λ u b. IsPermitted n confirmed × Final n b)
          (λ e b. Untouched b ⊎ (IsPermitted n confirmed × Thrown n e b))
  unfolding run_status_repeat
  run-Final n confirmed = Triple-bind ⊥ _ _ (Triple-guard ⊥ confirmed value_error λ b p. inl p) λ u.
      Triple-bind ⊥ _ _ (Triple-guard ⊥ (leb 1 n && leb n 10) value_error λ b p. inl p.1) λ u'.
        Triple-bind ⊥ _ _ (Triple-guard ⊥ (has_crc status_request) value_error λ b p. inl p.1.1)
          λ u''. Triple-assume ⊥ _ _ λ crc. Triple-assume ⊥ _ _ λ limits. Triple-assume ⊥ _ _ λ y.
            Triple-bind ⊥ _ _
              (Triple-modify ⊥ (λ b. record b { capture = Capture.init; report = blank })
                blank_Ready)
              λ u3. Triple-bind ⊥ _ _ logged λ u4.
                Triple-weaken ⊥ _ (λ a b v. ((y, up_to_ten n limits), v))
                  (λ e b v. inr ((y, up_to_ten n limits), v))
                  (whole-Finished P fuel ⊥ Allowed raises timely start n)
