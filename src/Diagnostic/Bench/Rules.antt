-- ===== src/Diagnostic/Bench/Rules.antt =====
-- What the shared actions of src/lms200/hardware_diagnostic.py keep, as triples.
use gepruft_lidar.Prelude.{
  ℕ, zero, suc, ◌+◌, ◌≤◌, ◌<◌, ◌≡◌, refl, sym, ◌∙◌, inl, inr, Bool, true, false, List, arith, subst,
  ltb, Bool-cases,
}
use gepruft_lidar.Prelude.Result.{Result, Error, ok, err, timeout_error, os_error}
use gepruft_lidar.Diagnostic.Capture.{Capture, Direction, pre_tx}
use gepruft_lidar.Diagnostic.Capture.Evidence.{IsSettled, read-IsSettled}
use gepruft_lidar.Diagnostic.Capture.Boundary.{read-tx_boundary}
use gepruft_lidar.Diagnostic.Bench.{
  Port, Bench, clamped, io, now, captured, receive, listen, window, sample, flush_port,
  flush_output, expired,
}
use gepruft_lidar.Device.Exec.{Outcome, done, raised, stuck, Exec, lift, ◌>>=◌}
use gepruft_lidar.Device.Exec.Triple.{Triple, Ending, Triple-bind}

-- The exceptions of the port.
pub record Raises (P : Port) (Allowed : Error → Type 0) : Type 0 where
  pub open_port : (s : P.State) (e : Error) → (P.open_port s).0 ≡ err e → Allowed e
  pub in_waiting : (s : P.State) (e : Error) → (P.in_waiting s).0 ≡ err e → Allowed e
  pub read_bytes : (n : ℕ) (s : P.State) (e : Error) → (P.read_bytes n s).0 ≡ err e → Allowed e
  pub write : (bytes : List ℕ) (s : P.State) (e : Error) → (P.write bytes s).0 ≡ err e → Allowed e
  pub flush : (s : P.State) (e : Error) → (P.flush s).0 ≡ err e → Allowed e
  pub cut_flush : (s : P.State) (e : Error) → (P.cut_flush s).0 ≡ err e → Allowed e
  pub timeout : Allowed timeout_error
  pub short_write : Allowed os_error

-- Any exception.
pub anything : (P : Port) → Raises P (λ e. Unit)
anything P = record {
  open_port = λ s e x. tt;
  in_waiting = λ s e x. tt;
  read_bytes = λ n s e x. tt;
  write = λ bytes s e x. tt;
  flush = λ s e x. tt;
  cut_flush = λ s e x. tt;
  timeout = tt;
  short_write = tt;
}

same_error : {A : Type 0} {e e' : Error} (r : Result A) → r ≡ err e → r ≡ err e' → e ≡ e'
same_error r h h' = cc

-- Each read takes time, and nothing turns the clock back.
pub record IsClock (P : Port) : Type 0 where
  pub in_waiting : (s : P.State) → P.now s ≤ P.now (P.in_waiting s).1
  pub read_bytes : (n : ℕ) (s : P.State) → P.now s < P.now (P.read_bytes n s).1

-- A program that listens for at most `longest` milliseconds does not run out of fuel, or Lost.
abbrev pub Timely : Port → Type 0 → Type 0 → ℕ → ℕ → Type 0
Timely P R Lost fuel longest =
    (test : ℕ → Bool) (phase : Direction) (framed : Bool) (b : Bench P.State R) (time : ℕ)
    → time ≤ longest
    → ((t : ℕ) → P.now b.port + time ≤ t → test t ≡ false)
    → (listen P fuel test phase framed b).0 ≡ stuck
    → Lost

-- What speaks of the port no further than of what was written.
pub io-Triple :
    (P : Port) {R A : Type 0} (Lost : Type 0) (Q : Bench P.State R → Type 0)
    (op : P.State → Result A × P.State)
    → ((s : P.State) → P.written (op s).1 ≡ P.written s)
    → ((b : Bench P.State R) (s : P.State)
        → P.written s ≡ P.written b.port
        → Q b
        → Q (record b { port = s }))
    → Triple Lost Q (io P op) (λ a. Q) (λ e. Q)
unfolding io lift
io-Triple P {R = R} {A = A} Lost Q op keeps h = record {
  at = λ b v. step (op b.port).0 (op b.port).1 b (keeps b.port) v;
}
  where
    step :
        (r : Result A) (s : P.State) (b : Bench P.State R)
        → P.written s ≡ P.written b.port
        → Q b
        → Ending Lost
            (λ (a : A). Q)
            (λ e. Q)
            (lift r (record b { port = s })).0
            (lift r (record b { port = s })).1
    step (ok a) s b e v = h b s e v
    step (err x) s b e v = h b s e v

module _ (P : Port) {R : Type 0} (Lost : Type 0) (Allowed : Error → Type 0) where
  -- The capture is settled, and this holds of it, of what was written and of the report.
  abbrev pub Steady : (Capture → List (List ℕ) → R → Type 0) → Bench P.State R → Type 0
  Steady J b = IsSettled b.capture × J b.capture (P.written b.port) b.report

  abbrev pub Broken : (Capture → List (List ℕ) → R → Type 0) → Error → Bench P.State R → Type 0
  Broken J e b = Allowed e × Steady J b

  -- A call of the port, with what it writes.
  pub io-Steady :
      (J J' : Capture → List (List ℕ) → R → Type 0) {A : Type 0} (op : P.State → Result A × P.State)
      → ((s : P.State) (e : Error) → (op s).0 ≡ err e → Allowed e)
      → ((c : Capture) (r : R) (s : P.State) → J c (P.written s) r → J' c (P.written (op s).1) r)
      → Triple Lost (Steady J) (io P op) (λ a. Steady J') (Broken J')
  unfolding io lift
  io-Steady J J' {A} op allowed moves = record {
    at = λ b (settled, j).
        step (op b.port).0 (op b.port).1 b settled (moves b.capture b.report b.port j)
          (allowed b.port);
  }
    where
      step :
          (r : Result A) (s : P.State) (b : Bench P.State R)
          → IsSettled b.capture
          → J' b.capture (P.written s) b.report
          → ((e : Error) → r ≡ err e → Allowed e)
          → Ending Lost
              (λ (a : A). Steady J')
              (Broken J')
              (lift r (record b { port = s })).0
              (lift r (record b { port = s })).1
      step (ok a) s b v j h = (v, j)
      step (err e) s b v j h = (h e refl, (v, j))

  -- What a read does not touch.
  abbrev pub Stable : (Capture → List (List ℕ) → R → Type 0) → Type 0
  Stable J =
      (s s' : Capture) (sent : List (List ℕ)) (r : R)
      → s'.tx_boundary ≡ s.tx_boundary
      → J s sent r
      → J s' sent r

  module _ (J : Capture → List (List ℕ) → R → Type 0) where
    abbrev pub KeepsSteady : {A : Type 0} → Exec (Bench P.State R) A → Type 0
    KeepsSteady m = Triple Lost (Steady J) m (λ a. Steady J) (Broken J)

    pub io-KeepsSteady :
        {A : Type 0} (op : P.State → Result A × P.State)
        → ((s : P.State) → P.written (op s).1 ≡ P.written s)
        → ((s : P.State) (e : Error) → (op s).0 ≡ err e → Allowed e)
        → KeepsSteady (io P op)
    io-KeepsSteady op keeps allowed =
        io-Steady J J op allowed
          λ c r s j. subst (λ (sent : List (List ℕ)). J c sent r) (sym (keeps s)) j

    captured-KeepsSteady :
        Stable J
        → (bytes : List ℕ) (phase : Direction) (framed : Bool)
        → KeepsSteady (captured P bytes phase framed)
    unfolding captured ◌>>=◌
    captured-KeepsSteady stable bytes phase framed = record {
      at = λ b (settled, j).
          let (s, e, settled') = read-IsSettled bytes phase framed b.capture settled in
          rw e (
            settled',
            stable b.capture s (P.written b.port) b.report
                (read-tx_boundary bytes phase framed b.capture s e) j,
          );
    }

    pub receive-KeepsSteady :
        Raises P Allowed
        → Stable J
        → (phase : Direction) (framed : Bool) → KeepsSteady (receive P phase framed)
    unfolding receive
    receive-KeepsSteady raises stable phase framed =
        Triple-bind Lost _ _ (io-KeepsSteady P.in_waiting P.in_waiting_keeps raises.in_waiting)
          λ waiting.
            Triple-bind Lost _ _
              (io-KeepsSteady (P.read_bytes (clamped waiting))
                (P.read_bytes_keeps (clamped waiting)) (raises.read_bytes (clamped waiting)))
              λ bytes. captured-KeepsSteady stable bytes phase framed

module _ (P : Port) {R : Type 0} (Allowed : Error → Type 0)
    (J : Capture → List (List ℕ) → R → Type 0) (raises : Raises P Allowed) where
  module _ (stable : Stable P Unit Allowed J) (test : ℕ → Bool) (phase : Direction)
      (framed : Bool) where
    -- As far as the fuel goes.
    listen-KeepsSteady : (fuel : ℕ) → KeepsSteady P Unit Allowed J (listen P fuel test phase framed)
    unfolding listen
    listen-KeepsSteady zero = record { at = λ b v. tt }
    listen-KeepsSteady (suc n) = record {
      at = λ b v. elim (Bool-cases (test (P.now b.port))) [
        | inl e ↦
            rw (listen, e)
              ((Triple-bind Unit _ _
                  (receive-KeepsSteady P Unit Allowed J raises stable phase framed)
                  λ u. listen-KeepsSteady n).at
                b v)
        | inr e ↦ rw (listen, e) v
      ];
    }

  module _ (Lost : Type 0) where
    abbrev Kept : {A : Type 0} → Exec (Bench P.State R) A → Type 0
    Kept m = KeepsSteady P Lost Allowed J m

    -- What stands before the report, and goes on to it.
    firm :
        {A : Type 0} (r : Outcome A) (b : Bench P.State R)
        → (r ≡ stuck → Lost)
        → Ending Unit (λ (a : A). Steady P Unit Allowed J) (Broken P Unit Allowed J) r b
        → Ending Lost (λ (a : A). Steady P Lost Allowed J) (Broken P Lost Allowed J) r b
    firm (done a) s h x = x
    firm (raised e) s h x = x
    firm stuck s h x = h refl

    -- A window of `time` milliseconds from now.
    pub window-KeepsSteady :
        (fuel longest : ℕ) (test : ℕ → ℕ → Bool) (phase : Direction) (framed : Bool) (time : ℕ)
        → Stable P Lost Allowed J
        → Timely P R Lost fuel longest
        → time ≤ longest
        → ((started t : ℕ) → started + time ≤ t → test started t ≡ false)
        → Kept (window P fuel test phase framed)
    unfolding window now ◌>>=◌
    window-KeepsSteady fuel longest test phase framed time stable timely short ends = record {
      at = λ b v.
          firm _ _
            (timely (test (P.now b.port)) phase framed b time short
              (λ t h. ends (P.now b.port) t h))
            ((listen-KeepsSteady stable (test (P.now b.port)) phase framed fuel).at b v);
    }

    pub sample-KeepsSteady :
        (fuel longest : ℕ) (framed : Bool)
        → Stable P Lost Allowed J
        → Timely P R Lost fuel longest
        → 100 ≤ longest
        → Kept (sample P fuel framed)
    unfolding sample
    sample-KeepsSteady fuel longest framed stable timely short =
        window-KeepsSteady fuel longest (λ started time. ltb time (started + 100)) pre_tx framed 100
          stable timely short (λ started t h. ground (arith, h))

    pub flush_output-KeepsSteady : Kept (flush_output P)
    unfolding flush_output flush_port
    flush_output-KeepsSteady = io-KeepsSteady P Lost Allowed J (flush_port P) keeps allowed
      where
        late :
            (r : Result (Unit {0})) (e : Error)
            → ((e : Error) → r ≡ err e → Allowed e)
            → expired r ≡ err e
            → Allowed e
        late (ok u) e h x = subst Allowed (same_error (expired (ok u)) refl x) raises.timeout
        late (err e') e h x = h e x

        allowed : (s : P.State) (e : Error) → (flush_port P s).0 ≡ err e → Allowed e
        allowed s e x = elim (Bool-cases (P.drains s)) [
          | inl h ↦ raises.flush s e (sym (chosen h) ∙ x)
          | inr h ↦ late (P.cut_flush s).0 e (raises.cut_flush s) (sym (cut h) ∙ x)
        ]
          where
            chosen : P.drains s ≡ true → (flush_port P s).0 ≡ (P.flush s).0
            chosen h = rw h refl

            cut : P.drains s ≡ false → (flush_port P s).0 ≡ expired (P.cut_flush s).0
            cut h = rw h refl

        keeps : (s : P.State) → P.written (flush_port P s).1 ≡ P.written s
        keeps s = elim (Bool-cases (P.drains s)) [
          | inl h ↦ rw h (P.flush_keeps s)
          | inr h ↦ rw h (P.cut_flush_keeps s)
        ]
