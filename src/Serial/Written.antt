-- ===== src/Serial/Written.antt =====
-- What SerialTransport of src/lms200/transports/serial.py writes, at every rate.
use gepruft_lidar.Prelude.{
  ℕ, zero, suc, ◌≡◌, refl, sym, ◌∙◌, ap, ◌==◌, ◌⊎◌, inl, inr, Bool, true, false, ◌&&◌, List, [],
  ◌∷◌, ◌++◌, arith, length, take, append-nil, append_assoc, if◌then◌else◌,
}
use gepruft_lidar.Prelude.Result.{Result, Error, ok, err, os_error, eof_error}
use gepruft_lidar.Serial.{
  SerialDevice, SerialTransport, io, check_device, write_each, write_all, write,
}
use gepruft_lidar.Device.Exec.{Outcome, done, raised, stuck, Exec, pure, raise, lift}
use gepruft_lidar.Device.Exec.Triple.{
  Triple, Ending, Triple-bind, Triple-modify, Triple-gets, Triple-pure, Triple-if, Triple-raise,
  Triple-weaken,
}

-- A device of which it is known what went out of it: a write sends as many bytes from the front as it
-- returns, and some from the front when it raises; the other calls send nothing.
pub record IsWire (D : SerialDevice) (sent : D.State → List ℕ) : Type 0 where
  pub part : List ℕ → D.State → ℕ
  pub write_sends :
      (bytes : List ℕ) (s : D.State)
      → sent (D.write_bytes bytes s).1 ≡ sent s ++ take (part bytes s) bytes
  pub write_counts :
      (bytes : List ℕ) (s : D.State) (n : ℕ) → (D.write_bytes bytes s).0 ≡ ok n → part bytes s ≡ n
  pub flush_sends : (s : D.State) → sent (D.flush s).1 ≡ sent s
  pub rest_sends : (s : D.State) → sent (D.rest s) ≡ sent s

take-all : (xs : List ℕ) → take (length xs) xs ≡ xs
take-all [] = refl
take-all (x ∷ xs) = ap (λ (l : List ℕ). x ∷ l) (take-all xs)

module _ (D : SerialDevice) (sent : D.State → List ℕ) (wire : IsWire D sent) where
  abbrev Sent : List ℕ → SerialTransport D.State → Type 0
  Sent before s = sent s.device ≡ before

  -- Of the bytes `bytes`, some from the front.
  abbrev SentPart : List ℕ → List ℕ → SerialTransport D.State → Type 0
  SentPart before bytes s = (k : ℕ) × (sent s.device ≡ before ++ take k bytes)

  abbrev Sends : {A : Type 0} → List ℕ → List ℕ → Exec (SerialTransport D.State) A → Type 0
  Sends before bytes m =
      Triple ⊥ (Sent before) m (λ a. Sent (before ++ bytes)) (λ e. SentPart before bytes)

  flushed :
      (before bytes : List ℕ)
      → Triple ⊥
          (Sent (before ++ bytes))
          (io D D.flush)
          (λ u. Sent (before ++ bytes))
          (λ e. SentPart before bytes)
  unfolding io lift
  flushed before bytes = record {
    at = λ s v. step (D.flush s.device).0 (D.flush s.device).1 s (wire.flush_sends s.device ∙ v);
  }
    where
      step :
          (r : Result (Unit {0})) (d : D.State) (s : SerialTransport D.State)
          → sent d ≡ before ++ bytes
          → Ending ⊥
              (λ (u : Unit {0}). Sent (before ++ bytes))
              (λ e. SentPart before bytes)
              (lift r (record s { device = d })).0
              (lift r (record s { device = d })).1
      step (ok u) d s v = v
      step (err e) d s v =
          (length bytes, v ∙ ap (λ (l : List ℕ). before ++ l) (sym (take-all bytes)))

  -- A write, which returns how many bytes went out.
  wrote :
      (before bytes : List ℕ)
      → Triple ⊥
          (Sent before)
          (io D (D.write_bytes bytes))
          (λ n. Sent (before ++ take n bytes))
          (λ e. SentPart before bytes)
  unfolding io lift
  wrote before bytes = record {
    at = λ s v.
        step (D.write_bytes bytes s.device).0 (D.write_bytes bytes s.device).1 s
          (wire.part bytes s.device)
          (wire.write_sends bytes s.device
            ∙ ap (λ (l : List ℕ). l ++ take (wire.part bytes s.device) bytes) v)
          (wire.write_counts bytes s.device);
  }
    where
      step :
          (r : Result ℕ) (d : D.State) (s : SerialTransport D.State) (k : ℕ)
          → sent d ≡ before ++ take k bytes
          → ((n : ℕ) → r ≡ ok n → k ≡ n)
          → Ending ⊥
              (λ n. Sent (before ++ take n bytes))
              (λ e. SentPart before bytes)
              (lift r (record s { device = d })).0
              (lift r (record s { device = d })).1
      step (ok n) d s k v h = v ∙ ap (λ (m : ℕ). before ++ take m bytes) (h n refl)
      step (err e) d s k v h = (k, v)

  counted :
      (before bytes : List ℕ) (n size : ℕ) (test : Bool)
      → size ≡ length bytes
      → test ≡ (n == size)
      → Triple ⊥
          (Sent (before ++ take n bytes))
          (if test then pure tt else raise os_error)
          (λ u. Sent (before ++ bytes))
          (λ e. SentPart before bytes)
  counted before bytes n size true e h = Triple-pure ⊥ tt λ s v.
      v
      ∙ ap (λ (m : ℕ). before ++ take m bytes) (ground (arith, h) ∙ e)
      ∙ ap (λ (l : List ℕ). before ++ l) (take-all bytes)
  counted before bytes n size false e h = Triple-raise ⊥ os_error λ s v. (n, v)

  write_all-Sends : (before bytes : List ℕ) → Sends before bytes (write_all D bytes)
  unfolding write_all
  write_all-Sends before bytes = Triple-bind ⊥ _ _ (wrote before bytes) λ n.
      Triple-bind ⊥ _ _ (counted before bytes n (length bytes) (n == length bytes) refl refl)
        λ u. flushed before bytes

  -- The bytes one by one: the first, and then the others.
  one_more : (before : List ℕ) (b : ℕ) (bs : List ℕ) → (before ++ b ∷ []) ++ bs ≡ before ++ b ∷ bs
  one_more before b bs = append_assoc before (b ∷ []) bs

  first_part :
      (before : List ℕ) (b : ℕ) (bs : List ℕ) (s : SerialTransport D.State)
      → SentPart before (b ∷ []) s
      → SentPart before (b ∷ bs) s
  first_part before b bs s (zero, v) = (0, v)
  first_part before b bs s (suc zero, v) = (1, v)
  first_part before b bs s (suc (suc k), v) = (1, v)

  write_each-Sends : (before bytes : List ℕ) → Sends before bytes (write_each D bytes)
  unfolding write_each
  write_each-Sends before [] = Triple-pure ⊥ tt λ s v. v ∙ sym (append-nil before)
  write_each-Sends before (b ∷ bs) = Triple-bind ⊥ _ _ (first (wrote before (b ∷ []))) λ n.
      Triple-bind ⊥ _ _ (first (counted before (b ∷ []) n 1 (n == 1) refl refl)) λ u.
        Triple-bind ⊥ _ _ (first (flushed before (b ∷ []))) λ u2.
          Triple-bind ⊥ {Mid = λ u. Sent (before ++ b ∷ [])} _ _
            (Triple-modify ⊥ (λ s. record s { device = D.rest s.device })
              λ s v. wire.rest_sends s.device ∙ v)
            λ u3.
              Triple-weaken ⊥ _ (λ u s v. v ∙ one_more before b bs)
                (λ e s v. (suc (v.0), v.1 ∙ one_more before b (take (v.0) bs)))
                (write_each-Sends (before ++ b ∷ []) bs)
    where
      first :
          {A : Type 0} {Pre : SerialTransport D.State → Type 0}
          {Post : A → SerialTransport D.State → Type 0} {m : Exec (SerialTransport D.State) A}
          → Triple ⊥ Pre m Post (λ e. SentPart before (b ∷ []))
          → Triple ⊥ Pre m Post (λ e. SentPart before (b ∷ bs))
      first t = Triple-weaken ⊥ _ (λ a s v. v) (λ e s v. first_part before b bs s v) t

  write-Sends : (before bytes : List ℕ) → Sends before bytes (write D bytes)
  unfolding write check_device
  write-Sends before bytes =
      Triple-bind ⊥ _ _
        (Triple-bind ⊥ {Mid = λ ready. Sent before} _ _
          (Triple-gets ⊥ (λ s. s.present && D.is_open s.device) λ s v. v) λ ready. checked ready)
        λ u.
          Triple-bind ⊥ {Mid = λ baud. Sent before} _ _ (Triple-gets ⊥ (λ s. s.baud) λ s v. v)
            λ baud.
              Triple-if ⊥ (baud == 500000) _ _ (λ h. write_each-Sends before bytes)
                (λ h. write_all-Sends before bytes)
    where
      checked :
          (ready : Bool)
          → Triple ⊥
              (Sent before)
              (if ready then pure tt else raise eof_error)
              (λ u. Sent before)
              (λ e. SentPart before bytes)
      checked true = Triple-pure ⊥ tt λ s v. v
      checked false = Triple-raise ⊥ eof_error λ s v. (0, v ∙ sym (append-nil before))

-- On a device whose bytes can be seen, at 500000 baud, where the bytes go out one by one, and at
-- every other rate: if `write` returns, exactly its data went out, in order, behind what was out
-- before. If it raises, only a part from the front of the data did. There is no other outcome.
pub write-IsComplete :
    (D : SerialDevice) (sent : D.State → List ℕ) (bytes : List ℕ) (s : SerialTransport D.State)
    → IsWire D sent
    → (((write D bytes s).0 ≡ done tt) × (sent (write D bytes s).1.device ≡ sent s.device ++ bytes))
      ⊎ ((e : Error) × ((write D bytes s).0 ≡ raised e)
          × (k : ℕ) × (sent (write D bytes s).1.device ≡ sent s.device ++ take k bytes))
write-IsComplete D sent bytes s wire =
    ended (write D bytes s).0 (write D bytes s).1
      ((write-Sends D sent wire (sent s.device) bytes).at s refl)
  where
    ended :
        (r : Outcome (Unit {0})) (s' : SerialTransport D.State)
        → Ending ⊥
            (λ (u : Unit {0}) t. sent t.device ≡ sent s.device ++ bytes)
            (λ e t. (k : ℕ) × (sent t.device ≡ sent s.device ++ take k bytes))
            r
            s'
        → ((r ≡ done tt) × (sent s'.device ≡ sent s.device ++ bytes))
          ⊎ ((e : Error) × (r ≡ raised e)
              × (k : ℕ) × (sent s'.device ≡ sent s.device ++ take k bytes))
    ended (done u) s' v = inl (refl, v)
    ended (raised e) s' (k, v) = inr (e, refl, k, v)
    ended stuck s' v = absurd v
