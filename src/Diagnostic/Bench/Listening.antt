-- ===== src/Diagnostic/Bench/Listening.antt =====
-- When the listening of src/lms200/hardware_diagnostic.py ends.
use gepruft_lidar.Prelude.{ℕ, zero, suc, ◌≡◌, Bool, false, Bool-cases, inl, inr}
use gepruft_lidar.Diagnostic.Capture.{Direction}
use gepruft_lidar.Diagnostic.Bench.{Port, Bench, receive, listen}
use gepruft_lidar.Device.Exec.Returns.{Returns, Returns-bind}

module _ (P : Port) {R : Type 0} (test : ℕ → Bool) (phase : Direction) (framed : Bool) where
  abbrev IsOver : Unit {0} → Bench P.State R → Type 0
  IsOver u b = test (P.now b.port) ≡ false

  -- A loop that returns has ended by its own test.
  pub listen-ends : (fuel : ℕ) → Returns IsOver (listen P fuel test phase framed)
  unfolding listen
  listen-ends zero = record { at = λ b a h. cc }
  listen-ends (suc n) = record {
    at = λ b a. elim (Bool-cases (test (P.now b.port))) [
      | inl e ↦ rw (listen, e) ((Returns-bind (receive P phase framed) _ λ u. listen-ends n).at b a)
      | inr e ↦ rw (listen, e) (λ h. e)
    ];
  }
