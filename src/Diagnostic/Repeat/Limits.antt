-- ===== src/Diagnostic/Repeat/Limits.antt =====
-- What run_status_repeat of src/lms200/hardware_diagnostic.py may do, and what its report means.
use gepruft_lidar.Prelude.{
  ℕ, zero, suc, ◌≤◌, ◌<◌, ◌≡◌, refl, sym, ◌∙◌, ◌⊎◌, inl, inr, Bool, true, false, ◌&&◌, some, List,
  [], ◌∷◌, ◌++◌, arith, length, get_elem?, subst, leb, replicate, All, append-nil,
}
use gepruft_lidar.Prelude.Result.{Error, ok, err, value_error, is_os_error}
use gepruft_lidar.Diagnostic.Capture.{Capture, Detail, is_present, is_past, post_tx}
use gepruft_lidar.Diagnostic.Capture.Answer.{IsAnswer}
use gepruft_lidar.Diagnostic.Capture.Queue.{IsDecoded, HasStatus, HasEvidence}
use gepruft_lidar.Protocol.Responses.{DeviceStatus}
use gepruft_lidar.Diagnostic.Capture.Evidence.{IsSettled}
use gepruft_lidar.Diagnostic.Bench.{Port, Bench, status_request, has_crc, io}
use gepruft_lidar.Diagnostic.Bench.Rules.{Raises, anything}
use gepruft_lidar.Diagnostic.Repeat.{Report, is_caught, blank, exchange, run_status_repeat}
use gepruft_lidar.Diagnostic.Repeat.Attempts.{IsQuiet, AllButLast, IsAnswered, Made, Ready}
use gepruft_lidar.Device.Exec.{Outcome, done, raised, stuck, lift}
use gepruft_lidar.Device.Exec.Triple.{
  Triple, Ending, Triple-bind, Triple-modify, Ending-any, Triple-passed, Triple-weaken,
}
use gepruft_lidar.Diagnostic.Bench.Rules.{IsClock}
use gepruft_lidar.Diagnostic.Repeat.Honest.{whole-Finished}
use gepruft_lidar.Diagnostic.Capture
use gepruft_lidar.Diagnostic.Repeat.Returned.{
  Thrown, Untouched, IsPermitted, Before, blank_Ready, timely, run-Final,
}
use gepruft_lidar.Diagnostic.Repeat.Reported.{has_crc_golden, begun, IsReported, run-IsReported}

-- What a run has written.
abbrev pub IsBounded : List (List ℕ) → ℕ → Bool → List (List ℕ) → Type 0
IsBounded before n confirmed after =
    (k : ℕ) × (k ≤ n)
    × (k ≤ 10)
    × (confirmed ≡ false → k ≡ 0)
    × (after ≡ before ++ replicate k status_request)

made-IsBounded :
    (start : List (List ℕ)) (n : ℕ) (confirmed : Bool) (s : Capture) (sent : List (List ℕ))
    (r : Report)
    → confirmed ≡ true
    → n ≤ 10
    → Made start n s sent r
    → IsBounded start n confirmed sent
made-IsBounded start n confirmed s sent r y h v =
    (v.count, v.bound, omega (arith, h, v.bound), (λ e. cc), v.sends)

none-IsBounded :
    (start : List (List ℕ)) (n : ℕ) (confirmed : Bool) (sent : List (List ℕ))
    → sent ≡ start
    → IsBounded start n confirmed sent
none-IsBounded start n confirmed sent e =
    (0, omega arith, omega arith, (λ h. refl), e ∙ sym (append-nil start))

-- If reads take time and the fuel is more than the 5001 milliseconds of a window, then however a run
-- of run_status_repeat ends, whatever the port does and raises, what it has written is the status
-- request and nothing else, at most `attempts` times and at most ten times, and not once without the
-- operator's confirmation.
pub run_status_repeat-IsBounded :
    (P : Port) (fuel n : ℕ) (confirmed : Bool) (b : Bench P.State Report)
    → IsClock P
    → 5001 < fuel
    → IsBounded
        (P.written b.port)
        n
        confirmed
        (P.written (run_status_repeat P fuel n confirmed b).1.port)
run_status_repeat-IsBounded P fuel n confirmed b clock enough =
    Ending-any (λ b'. IsBounded (P.written b.port) n confirmed (P.written b'.port))
      (run_status_repeat P fuel n confirmed b).0 (run_status_repeat P fuel n confirmed b).1
      ((Triple-weaken ⊥ (run_status_repeat P fuel n confirmed)
          (λ u b' ((y, h), (settled, (v, closed))).
            made-IsBounded (P.written b.port) n confirmed b'.capture (P.written b'.port) b'.report y
              h v)
          (λ e b' x. failed e b' x)
          (run-Final P fuel (λ e. Unit) (anything P) clock enough (P.written b.port) n
            confirmed)).at
        b refl)
  where
    failed :
        (e : Error) (b' : Bench P.State Report)
        → Untouched P fuel (λ e. Unit) (anything P) clock enough (P.written b.port) b'
          ⊎ (IsPermitted P fuel (λ e. Unit) (anything P) clock enough (P.written b.port) n confirmed
              × Thrown P fuel (λ e. Unit) (anything P) clock enough (P.written b.port) n e b')
        → IsBounded (P.written b.port) n confirmed (P.written b'.port)
    failed e b' (inl x) = none-IsBounded (P.written b.port) n confirmed (P.written b'.port) x
    failed e b' (inr (p, inl (x, (settled, (v, closed))))) =
        made-IsBounded (P.written b.port) n confirmed b'.capture (P.written b'.port) b'.report p.0
          p.1 v
    failed e b' (inr (p, inr (x, (settled, v)))) =
        made-IsBounded (P.written b.port) n confirmed b'.capture (P.written b'.port) b'.report p.0
          p.1 v

-- The capture holds a decoded status from behind the boundary, with an ACK and without a NAK.
pub record IsReplied (s : Capture) : Type 0 where
  pub index : ℕ
  pub telegram : Detail
  pub device_status : DeviceStatus
  pub status : s.status ≡ some index
  pub found : get_elem? s.telegrams index ≡ some telegram
  pub decoded : IsDecoded telegram device_status
  pub past : is_past s.tx_boundary telegram.candidate.offset ≡ true
  pub acked : s.post_ack ≡ true
  pub no_nak : s.post_nak ≡ false

-- What a returned report means.
pub record IsHonest (P : Port) (start : List (List ℕ)) (b : Bench P.State Report) : Type 0 where
  pub numbered : (P.written b.port) ≡ start ++ replicate (length b.report.attempts) status_request
  pub silent : AllButLast IsQuiet b.report.attempts
  pub closed : b.report.success ≡ true → b.report.port_closed ≡ true
  pub answered : b.report.success ≡ true → IsReplied b.capture

evidence :
    (d : Detail)
    → HasStatus d
    → is_present d.decoded_status ≡ true
    → (status : DeviceStatus) × IsDecoded d status
evidence d (inl e) h = cc
evidence d (inr x) h = x

some_same : {A : Type 0} (y x : A) → some y ≡ some x → y ≡ x
some_same y x h = cc

pub All-get_elem? :
    {A : Type 0} (Q : A → Type 0) (xs : List A) (i : ℕ) (x : A)
    → All Q xs
    → get_elem? xs i ≡ some x
    → Q x
All-get_elem? Q [] i x v e = cc
All-get_elem? Q (y ∷ xs) zero x (q, v) e = subst Q (some_same y x e) q
All-get_elem? Q (y ∷ xs) (suc i) x (q, v) e = All-get_elem? Q xs i x v e

pub answered-IsReplied : (s : Capture) → IsSettled s → IsAnswered s → IsReplied s
answered-IsReplied s settled a =
    let c : IsAnswer s a.index = settled.credible.0 a.index a.status in
    let (status, d) =
      evidence c.telegram
        (All-get_elem? HasEvidence s.telegrams a.index c.telegram settled.evidence c.found).0
        c.decoded in
    record {
      index = a.index;
      telegram = c.telegram;
      device_status = status;
      status = a.status;
      found = c.found;
      decoded = d;
      past = c.past;
      acked = c.acked;
      no_nak = a.no_nak;
    }

module _ (P : Port) (fuel n : ℕ) (clock : IsClock P) (enough : 5001 < fuel) (low : 1 ≤ n)
    (high : n ≤ 10) (raises : Raises P (λ e. is_caught e ≡ true))
    (closes : (s : P.State) (e : Error) → (P.close_port s).0 ≡ err e → is_os_error e ≡ true)
    (start : List (List ℕ)) where
  abbrev Logs : Bench P.State Report → Type 0
  Logs b = ((P.create_log b.port).0 ≡ ok tt) × ((P.written b.port) ≡ start)

  abbrev Fresh : Bench P.State Report → Type 0
  Fresh b = Before P fuel (λ e. is_caught e ≡ true) raises clock enough start b

  opposite : (c : Bool) → c ≡ true → c ≡ false → ⊥
  opposite c h h' = cc

  logs :
      Triple ⊥
        (λ b. ((P.create_log b.port).0 ≡ ok tt) × Fresh b)
        (io P P.create_log)
        (λ u. Fresh)
        (λ e b. ⊥)
  unfolding io lift
  logs = record {
    at = λ b (e, (settled, v)). rw e (
      settled,
      subst (λ (sent : List (List ℕ)). Ready start 0 b.capture sent b.report)
          (sym (P.create_log_keeps b.port)) v,
    );
  }

  unthrown :
      (e : Error) (b : Bench P.State Report)
      → Thrown P fuel (λ e. is_caught e ≡ true) raises clock enough start n e b
      → ⊥
  unthrown e b (inl ((h, h'), v)) = opposite (is_caught e) h h'
  unthrown e b (inr ((h, s, x), v)) = opposite (is_os_error e) (closes s e x) h

  run-returns : Triple ⊥ Logs (run_status_repeat P fuel n true) (λ u b. Unit) (λ e b. ⊥)
  unfolding run_status_repeat
  run-returns = Triple-bind ⊥ _ _ (Triple-passed ⊥ true value_error refl) λ u.
      Triple-bind ⊥ _ _
        (Triple-passed ⊥ (leb 1 n && leb n 10) value_error (ground (arith, low, high)))
        λ u'.
          Triple-bind ⊥ _ _ (Triple-passed ⊥ (has_crc status_request) value_error has_crc_golden)
            λ u''.
              Triple-bind ⊥ _ _
                (Triple-modify ⊥ (λ b. record b { capture = Capture.init; report = blank })
                  λ b (e, h).
                    (e, blank_Ready P fuel (λ e. is_caught e ≡ true) raises clock enough start b h))
                λ u3. Triple-bind ⊥ _ _ logs λ u4.
                  Triple-weaken ⊥ _ (λ a b v. tt) unthrown
                    (whole-Finished P fuel ⊥ (λ e. is_caught e ≡ true) raises
                      (timely P fuel (λ e. is_caught e ≡ true) raises clock enough start) start n)

-- If reads take time, the fuel is more than the 5001 milliseconds of a window, the operator confirmed
-- between one and ten attempts, the new journal could be made, and the port raises nothing but the
-- exceptions of an I/O error, an invalid value or the keyboard, and closing nothing but an OSError,
-- then run_status_repeat returns; and its report has the exception that ended the attempts, if one
-- did, with the interruption as the reason to stop, and the one of the closing port, if there is one.
pub run_status_repeat-returns :
    (P : Port) (fuel n : ℕ) (b : Bench P.State Report)
    → IsClock P
    → 5001 < fuel
    → 1 ≤ n
    → n ≤ 10
    → (P.create_log b.port).0 ≡ ok tt
    → Raises P (λ e. is_caught e ≡ true)
    → ((s : P.State) (e : Error) → (P.close_port s).0 ≡ err e → is_os_error e ≡ true)
    → ((run_status_repeat P fuel n true b).0 ≡ done tt)
      × IsReported P fuel n
          (exchange P fuel n (begun P fuel n b))
          (run_status_repeat P fuel n true b).1
run_status_repeat-returns P fuel n b clock enough low high log raises closes =
    let e = returned _ _ (
      (run-returns P fuel n clock enough low high raises closes (P.written b.port)).at b
        (log, refl)) in
    (e, run-IsReported P fuel n b low high log e)
  where
    returned :
        (r : Outcome (Unit {0})) (s : Bench P.State Report)
        → Ending ⊥ (λ (u : Unit {0}) b. Unit) (λ e b. ⊥) r s
        → r ≡ done tt
    returned (done u) s v = refl
    returned (raised e) s v = absurd v
    returned stuck s v = absurd v
