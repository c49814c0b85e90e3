-- ===== src/Diagnostic/Bench/Clock.antt =====
-- The loops of src/lms200/hardware_diagnostic.py that listen come to an end, as time passes.
use gepruft_lidar.Prelude.{
  ℕ, zero, suc, ◌+◌, ◌≤◌, ◌<◌, ◌≡◌, ◌≢◌, inl, inr, Bool, true, false, List, arith, Bool-cases, ltb,
}
use gepruft_lidar.Prelude.Result.{Result, ok, err}
use gepruft_lidar.Diagnostic.Capture.{Direction}
use gepruft_lidar.Diagnostic.Bench.{Port, Bench, clamped, to_result, io, captured, receive, listen}
use gepruft_lidar.Diagnostic.Bench.Rules.{IsClock, Timely}
use gepruft_lidar.Device.Exec.{Outcome, done, raised, stuck, Exec, lift}
use gepruft_lidar.Device.Exec.Triple.{
  Triple, Ending, Triple-bind, Triple-modify, Triple-gets, Triple-lift,
}

-- A loop that goes on has not come to its end.
pub before :
    (test : ℕ → Bool) (until : ℕ)
    → ((t : ℕ) → until ≤ t → test t ≡ false)
    → (t : ℕ) → test t ≡ true
    → t < until
before test until ends t e = elim (Bool-cases (ltb t until)) [
  | inl h ↦ ground (arith, h)
  | inr h ↦ absurd (both (test t) e (ends t (ground (arith, h))))
]
  where
    both : (b : Bool) → b ≡ true → b ≡ false → ⊥
    both b h h' = cc

module _ (P : Port) {R : Type 0} where
  abbrev pub From : ℕ → Bench P.State R → Type 0
  From t b = t ≤ P.now b.port

  -- Actions that the clock is not behind after.
  abbrev pub Passes : {A : Type 0} → ℕ → ℕ → Exec (Bench P.State R) A → Type 0
  Passes t t' m = Triple ⊥ (From t) m (λ a. From t') (λ e b. Unit)

  io-Passes :
      {A : Type 0} (t t' : ℕ) (op : P.State → Result A × P.State)
      → ((s : P.State) → t ≤ P.now s → t' ≤ P.now (op s).1)
      → Passes t t' (io P op)
  unfolding io lift
  io-Passes t t' op h = record { at = λ b v. step (op b.port).0 (op b.port).1 b (h b.port v) }
    where
      step :
          {A : Type 0} (r : Result A) (s : P.State) (b : Bench P.State R)
          → t' ≤ P.now s
          → Ending ⊥
              (λ (a : A). From t')
              (λ e b. Unit)
              (lift r (record b { port = s })).0
              (lift r (record b { port = s })).1
      step (ok a) s b v = v
      step (err e) s b v = tt

  captured-Passes :
      (t : ℕ) (bytes : List ℕ) (phase : Direction) (framed : Bool)
      → Passes t t (captured P bytes phase framed)
  unfolding captured
  captured-Passes t bytes phase framed =
      Triple-bind ⊥ {Mid = λ next. From t} _ _ (Triple-gets ⊥ _ λ b v. v) λ next.
        Triple-bind ⊥ _ _ (Triple-lift ⊥ (to_result next) (λ s e b v. v) (λ e h b v. tt))
          λ s. Triple-modify ⊥ (λ b. record b { capture = s }) λ b v. v

  module _ (clock : IsClock P) where
    pub receive-Passes :
        (t : ℕ) (phase : Direction) (framed : Bool) → Passes t (suc t) (receive P phase framed)
    unfolding receive
    receive-Passes t phase framed =
        Triple-bind ⊥ _ _ (io-Passes t t P.in_waiting (λ s h. omega (arith, h, clock.in_waiting s)))
          λ waiting.
            Triple-bind ⊥ _ _
              (io-Passes t (suc t) (P.read_bytes (clamped waiting))
                (λ s h. omega (arith, h, clock.read_bytes (clamped waiting) s)))
              λ bytes. captured-Passes (suc t) bytes phase framed

    module _ (test : ℕ → Bool) (phase : Direction) (framed : Bool) (until : ℕ)
        (ends : (t : ℕ) → until ≤ t → test t ≡ false) where
      listen-ends :
          (fuel t : ℕ)
          → 0 < fuel
          → until < t + fuel
          → Triple ⊥ (From t) (listen P fuel test phase framed) (λ u b. Unit) (λ e b. Unit)
      unfolding listen
      listen-ends zero t p h = absurd (omega (arith, p))
      listen-ends (suc n) t p h = record {
        at = λ b v. elim (Bool-cases (test (P.now b.port))) [
          | inl e ↦
              rw (listen, e)
                ((Triple-bind ⊥ _ _ (receive-Passes t phase framed) λ u.
                    listen-ends n (suc t)
                      (omega (arith, h, v, before test until ends (P.now b.port) e))
                      (omega (arith, h))).at
                  b v)
          | inr e ↦ rw (listen, e) tt
        ];
      }

    ending-stuck :
        {A : Type 0} (r : Outcome A) (b : Bench P.State R)
        → Ending ⊥ (λ (a : A) b. Unit) (λ e b. Unit) r b
        → r ≢ stuck
    ending-stuck (done a) b v h = cc
    ending-stuck (raised e) b v h = cc
    ending-stuck stuck b v h = v

    -- There is enough fuel for a step each millisecond.
    pub clock-Timely : (fuel longest : ℕ) → longest < fuel → Timely P R ⊥ fuel longest
    clock-Timely fuel longest h test phase framed b time short ends e =
        ending-stuck (listen P fuel test phase framed b).0 (listen P fuel test phase framed b).1
          ((listen-ends test phase framed (P.now b.port + time) ends fuel (P.now b.port)
              (omega (arith, h)) (omega (arith, h, short))).at
            b (omega arith))
          e
