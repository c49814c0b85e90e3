-- ===== src/Diagnostic/Repeat/Reported.antt =====
-- run_status_repeat of src/lms200/hardware_diagnostic.py keeps the exceptions of a run in its report.
use gepruft_lidar.Prelude.{
  ℕ, ◌≤◌, ◌≡◌, refl, sym, ap, ◌∙◌, subst, inl, inr, Bool, true, false, ◌&&◌, some, arith, leb,
  Bool-cases, if◌then◌else◌,
}
use gepruft_lidar.Prelude.Result.{Result, Error, ok, err, is_os_error}
use gepruft_lidar.Protocol.Crc.{crc16_golden}
use gepruft_lidar.Diagnostic.Capture
use gepruft_lidar.Diagnostic.Bench.{Port, status_request, has_crc, io, enter, close, finally, ended}
use gepruft_lidar.Diagnostic.Repeat.{
  Report, State, blank, is_caught, exchange, on_failure, finish, run_status_repeat, interrupted,
}
use gepruft_lidar.Device.Exec.{
  Outcome, done, raised, stuck, Exec, pure, raise, lift, catch, caught, modify, ◌>>=◌,
}

pub has_crc_golden : has_crc status_request ≡ true
has_crc_golden = rw crc16_golden refl

module _ (P : Port) (fuel n : ℕ) where
  unsealed :
      (c : Bool) (r : Report) → (if c then r else record r { success = false }).failure ≡ r.failure
  unsealed true r = refl
  unsealed false r = refl

  unsealed_stop :
      (c : Bool) (r : Report)
      → (if c then r else record r { success = false }).stop_reason ≡ r.stop_reason
  unsealed_stop true r = refl
  unsealed_stop false r = refl

  unsealed_close :
      (c : Bool) (r : Report)
      → (if c then r else record r { success = false }).close_failure ≡ r.close_failure
  unsealed_close true r = refl
  unsealed_close false r = refl

  same : (x y : Error) → Path (Result (Unit {0})) (err x) (err y) → x ≡ y
  same x y e = cc

  same_raised : (x y : Error) → Path (Outcome (Unit {0})) (raised x) (raised y) → x ≡ y
  same_raised x y e = cc

  not_done : (x : Error) → Path (Outcome (Unit {0})) (raised x) (done tt) → ⊥
  not_done x e = cc

  -- The state at the `try` block, behind the checks and the journal.
  abbrev pub begun : State P → State P
  begun b = record b { port = (P.create_log b.port).1; capture = Capture.init; report = blank }

  abbrev attempted : Exec (State P) (Unit {0})
  attempted = catch (exchange P fuel n) (on_failure P fuel)

  run_begun :
      (b : State P)
      → 1 ≤ n
      → n ≤ 10
      → (P.create_log b.port).0 ≡ ok tt
      → run_status_repeat P fuel n true b ≡ finally attempted (finish P fuel) (begun b)
  unfolding run_status_repeat io lift ◌>>=◌ modify pure
  run_begun b low high log =
      let limits : (leb 1 n && leb n 10) ≡ true = ground (arith, low, high) in
      rw (limits, has_crc_golden, log) refl

  -- The end of the `finally` block, on the outcome of `device.close()`.
  IsKept : State P → State P → Type 0
  IsKept s s' =
      (s'.report.failure ≡ s.report.failure)
      × (s'.report.stop_reason ≡ s.report.stop_reason)
      × ((e : Error) → (P.close_port s.port).0 ≡ err e → s'.report.close_failure ≡ some e)

  finish-IsKept : (s : State P) → (finish P fuel s).0 ≡ done tt → IsKept s (finish P fuel s).1
  unfolding finish close io lift catch modify IsKept ◌>>=◌ raise
  finish-IsKept s = at (P.close_port s.port).0 refl
    where
      at :
          (r : Result (Unit {0}))
          → (P.close_port s.port).0 ≡ r
          → (finish P fuel s).0 ≡ done tt
          → IsKept s (finish P fuel s).1
      at (ok u) e = rw e (λ h. (unsealed _ _, unsealed_stop _ _, λ x k. cc))
      at (err x) e = elim (Bool-cases (is_os_error x)) [
        | inl o ↦
            rw (e, o)
              (λ h. (
                unsealed _ _,
                unsealed_stop _ _,
                λ x' k. unsealed_close _ _ ∙ ap some (same x x' k),
              ))
        | inr o ↦ rw (e, o) (λ h. cc)
      ]

  ended-done :
      (r : Outcome (Unit {0})) (o : Outcome (Unit {0}) × State P)
      → (ended r o).0 ≡ done tt
      → (r ≡ done tt) × (o.0 ≡ done tt) × ((ended r o).1 ≡ o.1)
  ended-done (done u) (done v, s) h = (refl, refl, refl)
  ended-done (done u) (raised e, s) h = cc
  ended-done (done u) (stuck, s) h = cc
  ended-done (raised e) (done v, s) h = cc
  ended-done (raised e) (raised e', s) h = cc
  ended-done (raised e) (stuck, s) h = cc
  ended-done stuck (o, s) h = cc

  -- The exceptions of the `try` block and of `device.close()` stand in the report.
  abbrev pub IsReported : Outcome (Unit {0}) × State P → State P → Type 0
  IsReported tried last =
      ((e : Error)
        → tried.0 ≡ raised e
        → (last.report.failure ≡ some e) × (last.report.stop_reason ≡ some interrupted))
      × ((e : Error) → (P.close_port tried.1.port).0 ≡ err e → last.report.close_failure ≡ some e)

  caught-IsReported :
      (r : Outcome (Unit {0})) (s : State P)
      → (caught r (on_failure P fuel) s).0 ≡ done tt
      → (finish P fuel (caught r (on_failure P fuel) s).1).0 ≡ done tt
      → IsReported (r, s) (finish P fuel (caught r (on_failure P fuel) s).1).1
  unfolding on_failure modify IsKept raise
  caught-IsReported (done u) s h k = ((λ e x. cc), (finish-IsKept s k).2)
  caught-IsReported stuck s h k = cc
  caught-IsReported (raised e) s h k = elim (Bool-cases (is_caught e)) [
    | inl c ↦
        let s' : State P =
          enter (λ r. record r { failure = some e; stop_reason = some interrupted }) s in
        let passed : on_failure P fuel e s ≡ (done tt, s') = rw c refl in
        subst
          (λ (x : Outcome (Unit {0}) × State P).
            (finish P fuel x.1).0 ≡ done tt → IsReported (raised e, s) (finish P fuel x.1).1)
          (sym passed)
          (λ k'.
            let (failure, stop, closed) = finish-IsKept s' k' in
            ((λ e' p. (failure ∙ ap some (same_raised e e' p), stop)), closed))
          k
    | inr c ↦
        let passed : on_failure P fuel e s ≡ (raised e, s) = rw c refl in
        absurd (not_done e (sym (ap (λ (x : Outcome (Unit {0}) × State P). x.0) passed) ∙ h))
  ]

  -- A run that returns, on a bench where it makes its journal.
  pub run-IsReported :
      (b : State P)
      → 1 ≤ n
      → n ≤ 10
      → (P.create_log b.port).0 ≡ ok tt
      → (run_status_repeat P fuel n true b).0 ≡ done tt
      → IsReported (exchange P fuel n (begun b)) (run_status_repeat P fuel n true b).1
  unfolding finally catch
  run-IsReported b low high log h =
      let e = run_begun b low high log in
      let tried : Outcome (Unit {0}) × State P = attempted (begun b) in
      let (is_done, last_done, same_state) =
        ended-done tried.0 (finish P fuel tried.1)
          (ap (λ (x : Outcome (Unit {0}) × State P). x.0) (sym e) ∙ h) in
      subst (IsReported (exchange P fuel n (begun b)))
        (sym same_state ∙ ap (λ (x : Outcome (Unit {0}) × State P). x.1) (sym e))
        (caught-IsReported (exchange P fuel n (begun b)).0 (exchange P fuel n (begun b)).1 is_done
          last_done)
