-- ===== src/Protocol/Framing/RoundTrip.antt =====
-- `feed` reads back what `encode` wrote (src/lms200/protocol/framing.py).
use gepruft_lidar.Prelude.{
  ℕ, suc, ◌+◌, ◌-◌, ◌/◌, ◌%◌, ◌≤◌, ◌≡◌, ◌≢◌, refl, ap, ◌∙◌, some, List, [], ◌∷◌, ◌++◌, arith,
  length, length-append, take, drop, get_or, take_all, take_whole, drop_whole,
}
use gepruft_lidar.Prelude.Result.{ok}
use gepruft_lidar.Protocol.Crc.{crc16}
use gepruft_lidar.Protocol.Framing.{
  Framer, Fed, frame, stx, turn, at_head, round, accept, drain, feed, word_at, join, encode,
  max_payload, to_bytes,
}
use gepruft_lidar.Protocol.Framing.Chunks.{drain_go, idle_drain, feed-append}

-- The bytes of a telegram with `size` in its length field.
abbrev pub telegram : ℕ → ℕ → List ℕ → ℕ → List ℕ
telegram address size payload crc =
    stx ∷ address ∷ size % 256 ∷ size / 256 ∷ (payload ++ (crc % 256 ∷ crc / 256 ∷ []))

abbrev pub message : ℕ → List ℕ → List ℕ
message address payload = stx ∷ address ∷ length payload % 256 ∷ length payload / 256 ∷ payload

pub encode_ok :
    (payload : List ℕ) (address : ℕ) {raw : List ℕ}
    → encode payload address ≡ ok raw
    → (address ≤ 255)
      × (1 ≤ length payload)
      × (length payload ≤ max_payload)
      × (telegram address (length payload) payload (crc16 (message address payload)) ≡ raw)
unfolding encode to_bytes
encode_ok payload address e = ground arith

get_last_two :
    (xs : List ℕ) (a b : ℕ)
    → (get_or (xs ++ (a ∷ b ∷ [])) (length xs) 0 ≡ a)
      × (get_or (xs ++ (a ∷ b ∷ [])) (suc (length xs)) 0 ≡ b)
get_last_two [] a b = (refl, refl)
get_last_two (x ∷ xs) a b = get_last_two xs a b

-- What `feed` makes of a telegram: one frame, one candidate, nothing left in the buffer.
abbrev pub delivered : Framer → ℕ → List ℕ → List ℕ → Fed
delivered s address payload raw = record {
  framer = record {
    buffer = [];
    stats = record s.stats { frames = s.stats.frames + 1 };
    offset = s.offset + length raw;
  };
  events = frame (record { address = address; payload = payload; raw = raw }) ∷ [];
  observed =
      record {
        offset = s.offset;
        raw = raw;
        crc_expected = crc16 (message address payload);
        crc_received = crc16 (message address payload);
      }
      ∷ [];
}

-- What one round makes of a telegram with a wrong checksum: the first byte is dropped.
abbrev pub after_error : Framer → List ℕ → Framer
after_error s raw = record {
  buffer = drop 1 raw;
  stats = record s.stats { crc_errors = s.stats.crc_errors + 1 };
  offset = s.offset + 1;
}

module _ (s : Framer) (address : ℕ) (payload : List ℕ) (crc : ℕ) where
  unfoldable pub raw : List ℕ
  raw = telegram address (length payload) payload crc

  long : length raw ≡ length payload + 6
  unfolding raw
  long = omega (arith, length-append payload (crc % 256 ∷ crc / 256 ∷ []))

  stop : length raw - 2 ≡ suc (suc (suc (suc (length payload))))
  stop = omega (arith, long)

  front : take (length raw - 2) raw ≡ message address payload
  unfolding raw
  front = rw stop (
      ap (λ (xs : List ℕ). stx ∷ address ∷ length payload % 256 ∷ length payload / 256 ∷ xs)
        (take_all payload (crc % 256 ∷ crc / 256 ∷ [])))

  back : word_at raw (length raw - 2) ≡ crc
  unfolding raw
  back =
      let (low, high) = get_last_two payload (crc % 256) (crc / 256) in
      rw stop (rw (low, high) (omega arith))

  second : get_or raw 1 0 ≡ address
  unfolding raw
  second = refl

  size : word_at raw 2 ≡ length payload
  unfolding raw
  size = omega arith

  unfoldable pub filled : Framer
  filled = record s { buffer = raw }

  accept-telegram :
      crc ≡ crc16 (message address payload)
      → accept filled (length payload + 6) ≡ delivered s address payload raw
  unfolding accept filled
  accept-telegram good = rw (take_whole (length payload + 6) raw (omega (arith, long))) (
      rw (front, back)
        (ground (arith, drop_whole (length payload + 6) raw (omega (arith, long)), long, second)))

  pub accept-corrupt :
      crc ≢ crc16 (message address payload)
      → (accept filled (length payload + 6)).framer ≡ after_error s raw
        × ((accept filled (length payload + 6)).events ≡ [])
  unfolding accept filled
  accept-corrupt bad =
      rw (take_whole (length payload + 6) raw (omega (arith, long)))
        (rw (front, back) (ground arith))

  module _ (lo : 1 ≤ length payload) (hi : length payload ≤ max_payload) where
    round-telegram : round filled stx ≡ some (accept filled (length payload + 6))
    unfolding round filled
    round-telegram = rw size (ground (arith, long))

    pub turn-telegram : turn filled ≡ some (accept filled (length payload + 6))
    unfolding turn raw at_head filled
    turn-telegram = round-telegram

    feed-telegram :
        s.buffer ≡ []
        → crc ≡ crc16 (message address payload)
        → feed s raw ≡ delivered s address payload raw
    unfolding feed raw filled
    feed-telegram empty good = rw empty (
        ap (λ (n : ℕ). drain n filled) (long ∙ add_five)
        ∙ drain_go (length payload + 5) filled _ (turn-telegram ∙ ap some (accept-telegram good))
        ∙ ap (join (delivered s address payload raw)) (idle_drain _ _ (omega arith)))
      where
        add_five : length payload + 6 ≡ suc (length payload + 5)
        add_five = omega arith

-- A telegram that `encode` wrote, whatever follows it, is returned by `feed` as one frame with its
-- address, payload and bytes, and `feed` goes on with what follows. The framer starts with an empty
-- buffer.
pub feed-encode :
    (s : Framer) (payload : List ℕ) (address : ℕ) (raw rest : List ℕ)
    → s.buffer ≡ []
    → encode payload address ≡ ok raw
    → feed s (raw ++ rest)
      ≡ join (delivered s address payload raw) (feed (delivered s address payload raw).framer rest)
feed-encode s payload address raw' rest empty e =
    let (in_byte, lo, hi, whole) = encode_ok payload address e in
    let one : feed s raw' ≡ delivered s address payload raw' =
      rw (← whole) (unfold raw in feed-telegram s address payload _ lo hi empty refl) in
    feed-append s raw' rest ∙ ap (λ (t : Fed). join t (feed t.framer rest)) one
