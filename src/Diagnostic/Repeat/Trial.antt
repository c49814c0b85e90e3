-- ===== src/Diagnostic/Repeat/Trial.antt =====
-- One attempt of run_status_repeat of src/lms200/hardware_diagnostic.py, as a triple.
use gepruft_lidar.Prelude.{
  ℕ, suc, ◌-◌, ◌≤◌, ◌≡◌, refl, ◌∙◌, ap, inl, inr, Bool, true, false, not, ◌&&◌, ◌||◌, ◌==◌, Option,
  none, some, List, arith, ltb, drop, Bool-cases, if◌then◌else◌,
}
use gepruft_lidar.Prelude.Result.{Error, os_error}
use gepruft_lidar.Diagnostic.Capture.{Capture, is_present, post_tx}
use gepruft_lidar.Diagnostic.Bench.{Port, status_request, now, listen, window}
use gepruft_lidar.Diagnostic.Bench.Rules.{
  Raises, Timely, Steady, Broken, window-KeepsSteady, flush_output-KeepsSteady,
}
use gepruft_lidar.Diagnostic.Bench.Closing.{transmit-Triple}
use gepruft_lidar.Diagnostic.Repeat.{
  Attempt, Report, State, begin, amend, change_last, conclude, is_answered, valid_frame, attempt,
  listen_period,
}
use gepruft_lidar.Diagnostic.Repeat.Attempts.{
  IsQuiet, Made, Ready, Trying, Trying-Made, Trying-Ready, Trying-sent, Trying-change_last,
  Trying-stable,
}
use gepruft_lidar.Diagnostic.Bench.Listening.{listen-ends}
use gepruft_lidar.Device.Exec.{
  Outcome, done, raised, stuck, Exec, pure, raise, modify, continue, ◌>>=◌,
}
use gepruft_lidar.Device.Exec.Triple.{
  Triple, Ending, Triple-bind, Triple-modify, Triple-gets, Triple-pure, Triple-raise, Triple-weaken,
}

abbrev IsSent : Attempt → Type 0
IsSent a = a.write_return ≡ some 7

abbrev IsFlushed : Attempt → Type 0
IsFlushed a = (a.write_return ≡ some 7) × (a.flush_completed ≡ true)

silent :
    (status : Option ℕ) (ack nak success more : Bool)
    → success ≡ (is_present status && not nak)
    → (success || ack || nak || more) ≡ false
    → (ack ≡ false) × (nak ≡ false) × (status ≡ none)
silent none false false success more e h = (refl, refl, refl)
silent (some i) false false true more e h = cc
silent (some i) false false false more e h = cc
silent status true nak true more e h = cc
silent status true nak false more e h = cc
silent status false true true more e h = cc
silent status false true false more e h = cc

counted :
    (status : Option ℕ) (nak : Bool)
    → (is_present status && not nak) ≡ true
    → (i : ℕ) × (status ≡ some i) × (nak ≡ false)
counted none nak e = cc
counted (some i) true e = cc
counted (some i) false e = (i, refl, refl)

no_success : (a b c d : Bool) → (a || b || c || d) ≡ false → a ≡ false
no_success true b c d e = cc
no_success false b c d e = refl

-- At the end of an attempt that no answer came to.
concluded-IsQuiet :
    (time : ℕ) (s : Capture) (success : Bool) (more : Bool) (a : Attempt)
    → 5000 ≤ time
    → IsFlushed a
    → success ≡ (is_present s.status && not s.post_nak)
    → (success || s.post_ack || s.post_nak || more) ≡ false
    → IsQuiet (record a {
      listen_time = some time;
      rx = some (drop a.rx_start s.raw);
      ack = some s.post_ack;
      nak = some s.post_nak;
      status = s.status;
    })
concluded-IsQuiet time s success more a long (w, f) e h =
    let (no_ack, no_nak, no_status) = silent s.status s.post_ack s.post_nak success more e h in
    record {
      written = w;
      flushed = f;
      time = time;
      listened = refl;
      long = long;
      no_ack = ap some no_ack;
      no_nak = ap some no_nak;
      no_status = no_status;
    }

module _ (P : Port) (fuel : ℕ) (Lost : Type 0) (Allowed : Error → Type 0)
    (raises : Raises P Allowed) (timely : Timely P Report Lost fuel 5000)
    (start : List (List ℕ)) where
  abbrev pub At : (Capture → List (List ℕ) → Report → Type 0) → State P → Type 0
  At J = Steady P Lost Allowed J

  abbrev pub Failed : ℕ → Error → State P → Type 0
  Failed n = Broken P Lost Allowed (Made start n)

  -- The state after an attempt.
  abbrev pub Tried : (k n : ℕ) → Bool → State P → Type 0
  Tried k n true = At (Made start n)
  Tried k n false = At (Ready start (suc k))

  module _ (k n : ℕ) (more : suc k ≤ n) where
    -- A step within an attempt.
    within :
        {A : Type 0} (F F' : Attempt → Type 0) (c : ℕ) (m : Exec (State P) A)
        → Triple Lost
            (At (Trying start F k c))
            m
            (λ a. At (Trying start F' k (suc k)))
            (Broken P Lost Allowed (Trying start F' k (suc k)))
        → Triple Lost (At (Trying start F k c)) m (λ a. At (Trying start F' k (suc k))) (Failed n)
    within F F' c m t =
        Triple-weaken Lost m (λ a s x. x)
          (λ e b (x, v).
            (x, (v.0, Trying-Made start F' k n b.capture (P.written b.port) b.report more v.1)))
          t

    begin-Trying :
        (number : ℕ) (b : State P)
        → At (Ready start k) b
        → At (Trying start (λ a. Unit) k k) (begin number b)
    begin-Trying number b (settled, j) = (
      record {
        empty = settled.empty;
        evidence = settled.evidence;
        credible = ((λ i e. cc), settled.credible.1);
      },
      record {
        previous = b.report.attempts;
        current = _;
        made = refl;
        sends = j.sends;
        number = j.number;
        quiet = j.quiet;
        facts = tt;
        failed = j.failed;
      },
    )

    -- The last two lines: what the window showed, and whether it ends the repetition.
    abbrev Judged : State P → Type 0
    Judged b = Tried k n (is_answered b) b

    judged :
        (time : ℕ) (b : State P)
        → (5000 ≤ time) × At (Trying start IsFlushed k (suc k)) b
        → Judged (conclude time b)
    judged time b (long, (settled, j)) = elim (Bool-cases (is_answered (conclude time b))) [
      | inl e ↦
          let m : Made start n b.capture (P.written b.port) _ =
            Trying-Made start (λ a. Unit) k n b.capture (P.written b.port) _ more
              (last (λ a. Unit) (λ a h. tt)) in
          rw e (
            settled,
            record {
              count = m.count;
              bound = m.bound;
              sends = m.sends;
              number = m.number;
              quiet = m.quiet;
              honest = λ h.
                  let (i, status, no_nak) = counted b.capture.status b.capture.post_nak h in
                  record { index = i; status = status; no_nak = no_nak };
            },
          )
      | inr e ↦
          let r : Ready start (suc k) b.capture (P.written b.port) _ =
            Trying-Ready start k b.capture (P.written b.port) _ (
              last IsQuiet (λ a h.
                concluded-IsQuiet time b.capture _ (valid_frame b.capture) a long h refl e)) in
          rw e (
            settled,
            record {
              sends = r.sends;
              number = r.number;
              quiet = r.quiet;
              failed = no_success _ b.capture.post_ack b.capture.post_nak (valid_frame b.capture) e;
            },
          )
    ]
      where
        final : Attempt → Attempt
        final a = record a {
          listen_time = some time;
          rx = some (drop a.rx_start b.capture.raw);
          ack = some b.capture.post_ack;
          nak = some b.capture.post_nak;
          status = b.capture.status;
        }

        last :
            (F : Attempt → Type 0)
            → ((a : Attempt) → IsFlushed a → F (final a))
            → Trying start F k
                (suc k)
                b.capture
                (P.written b.port)
                (record (b.report) { attempts = change_last final b.report.attempts })
        last F h =
            Trying-change_last start IsFlushed F final k (suc k) b.capture (P.written b.port)
              b.report h j

    amend-Trying :
        (F F' : Attempt → Type 0) (f : Attempt → Attempt)
        → ((a : Attempt) → F a → F' (f a))
        → Triple Lost
            (At (Trying start F k (suc k)))
            (modify (amend f))
            (λ u. At (Trying start F' k (suc k)))
            (Failed n)
    amend-Trying F F' f h = Triple-modify Lost (amend f) λ b (settled, j). (
      settled,
      Trying-change_last start F F' f k (suc k) b.capture (P.written b.port) b.report h j,
    )

    -- A short write ends the attempt.
    complete :
        (written : ℕ) (test : Bool)
        → test ≡ (written == 7)
        → Triple Lost
            (At (Trying start (λ a. a.write_return ≡ some written) k (suc k)))
            (if test then pure tt else raise os_error)
            (λ u. At (Trying start IsSent k (suc k)))
            (Failed n)
    complete written true e = Triple-pure Lost tt λ b (settled, j). (
      settled,
      record {
        previous = j.previous;
        current = j.current;
        made = j.made;
        sends = j.sends;
        number = j.number;
        quiet = j.quiet;
        facts = j.facts ∙ ap some (ground (arith, e));
        failed = j.failed;
      },
    )
    complete written false e = Triple-raise Lost os_error λ b (settled, j). (
      raises.short_write,
      (settled, Trying-Made start _ k n b.capture (P.written b.port) b.report more j),
    )

    -- The window after the flush.
    heard :
        Triple Lost
          (At (Trying start IsFlushed k (suc k)))
          (listen_period P fuel)
          (λ time b. (5000 ≤ time) × At (Trying start IsFlushed k (suc k)) b)
          (Failed n)
    unfolding listen_period now ◌>>=◌ window listen
    heard = record {
      at = λ b v.
          over (P.now b.port) _ _ (listening.at b v)
            ((listen-ends P (λ time. ltb (time - P.now b.port) 5000) post_tx true fuel).at b);
    }
      where
        listening :
            Triple Lost
              (At (Trying start IsFlushed k (suc k)))
              (window P fuel (λ started time. ltb (time - started) 5000) post_tx true)
              (λ u. At (Trying start IsFlushed k (suc k)))
              (Failed n)
        listening = within IsFlushed IsFlushed (suc k) _ (
            window-KeepsSteady P Allowed (Trying start IsFlushed k (suc k)) raises Lost fuel 5000
              (λ started time. ltb (time - started) 5000) post_tx true 5000
              (Trying-stable start IsFlushed k (suc k)) timely (omega arith)
              (λ started t h. ground (arith, h)))

        over :
            (started : ℕ) (r : Outcome (Unit {0})) (b : State P)
            → Ending Lost (λ (u : Unit {0}). At (Trying start IsFlushed k (suc k))) (Failed n) r b
            → ((u : Unit {0}) → r ≡ done u → ltb (P.now b.port - started) 5000 ≡ false)
            → Ending Lost
                (λ time b. (5000 ≤ time) × At (Trying start IsFlushed k (suc k)) b)
                (Failed n)
                (continue r (λ u. now P >>= λ ended. pure (ended - started)) b).0
                (continue r (λ u. now P >>= λ ended. pure (ended - started)) b).1
        over started (done u) b v h = (ground (arith, h u refl), v)
        over started (raised e) b v h = v
        over started stuck b v h = v

    pub attempt-Tried :
        (number : ℕ)
        → Triple Lost (At (Ready start k)) (attempt P fuel number) (Tried k n) (Failed n)
    unfolding attempt
    attempt-Tried number =
        Triple-bind Lost _ _ (Triple-modify Lost (begin number) (begin-Trying number)) λ u.
          Triple-bind Lost _ _
            (within (λ a. Unit) (λ a. Unit) k _
              (transmit-Triple P Lost Allowed (Trying start (λ a. Unit) k k)
                (Trying start (λ a. Unit) k (suc k)) raises status_request
                (λ s sent r j. Trying-sent start (λ a. Unit) k s sent r j)))
            λ written.
              Triple-bind Lost _ _
                (amend-Trying (λ a. Unit) (λ a. a.write_return ≡ some written)
                  (λ a. record a { write_return = some written }) (λ a h. refl))
                λ u'. Triple-bind Lost _ _ (complete written (written == 7) refl) λ u''.
                  Triple-bind Lost _ _
                    (within IsSent IsSent (suc k) _ (
                      flush_output-KeepsSteady P Allowed (Trying start IsSent k (suc k)) raises
                        Lost))
                    λ u3.
                      Triple-bind Lost _ _
                        (amend-Trying IsSent IsFlushed (λ a. record a { flush_completed = true })
                          (λ a h. (h, refl)))
                        λ u4. Triple-bind Lost _ _ heard λ time.
                          Triple-bind Lost {Mid = λ u. Judged} _ _
                            (Triple-modify Lost (conclude time) (judged time))
                            λ u6. Triple-gets Lost is_answered λ b v. v
