-- ===== src/Protocol/Framing/Corruption.antt =====
-- A telegram with one changed payload byte is rejected by `feed` (src/lms200/protocol/framing.py).
use gepruft_lidar.Prelude.{
  ℕ, suc, ◌+◌, ◌/◌, ◌%◌, ◌≤◌, ◌≡◌, ◌≢◌, refl, ap, some, List, [], ◌∷◌, ◌++◌, arith, length,
  length-append, set, All,
}
use gepruft_lidar.Prelude.Result.{ok}
use gepruft_lidar.Protocol.Crc.{IsByte, crc16}
use gepruft_lidar.Protocol.Crc.SingleByte.{crc16_detects_single_byte}
use gepruft_lidar.Protocol.Framing.{Framer, Fed, stx, turn, accept, encode, max_payload}
use gepruft_lidar.Protocol.Framing.RoundTrip.{
  telegram, message, encode_ok, after_error, raw, filled, turn-telegram, accept-corrupt,
}

set-append :
    (front back more : List ℕ) (a b : ℕ)
    → set ((front ++ (a ∷ back)) ++ more) (length front) b ≡ (front ++ (b ∷ back)) ++ more
set-append [] back more a b = refl
set-append (x ∷ front) back more a b = ap (◌∷◌ x) (set-append front back more a b)

module _ (before after : List ℕ) (a b address : ℕ) where
  abbrev sent : List ℕ
  sent = before ++ (a ∷ after)

  abbrev received : List ℕ
  received = before ++ (b ∷ after)

  same_length : length received ≡ length sent
  same_length = omega (arith, length-append before (a ∷ after), length-append before (b ∷ after))

  set-telegram :
      (crc : ℕ)
      → set (telegram address (length sent) sent crc) (4 + length before) b
        ≡ telegram address (length received) received crc
  set-telegram crc =
      rw (same_length, four)
        (ap (λ (xs : List ℕ). stx ∷ address ∷ length sent % 256 ∷ length sent / 256 ∷ xs)
          (set-append before after (crc % 256 ∷ crc / 256 ∷ []) a b))
    where
      four : 4 + length before ≡ suc (suc (suc (suc (length before))))
      four = omega arith

  crc-differs :
      All IsByte before
      → IsByte a
      → IsByte b
      → All IsByte after
      → IsByte address
      → length sent ≤ max_payload
      → a ≢ b
      → crc16 (message address sent) ≢ crc16 (message address received)
  crc-differs hf ha hb hs in_byte hi differ = rw same_length (
      crc16_detects_single_byte (stx ∷ address ∷ length sent % 256 ∷ length sent / 256 ∷ before)
        after a b (omega arith, (in_byte, (omega arith, (omega arith, hf)))) ha hb hs differ)

-- A telegram in which one byte of the payload was changed on the line is not taken for a frame: the
-- loop of `feed` counts a checksum error, drops one byte and returns no event for it.
pub turn-corrupt :
    (s : Framer) (before after : List ℕ) (a b address : ℕ) (whole : List ℕ)
    → All IsByte before
    → IsByte a
    → IsByte b
    → All IsByte after
    → a ≢ b
    → encode (before ++ (a ∷ after)) address ≡ ok whole
    → (t : Fed) × (turn (record s { buffer = set whole (4 + length before) b }) ≡ some t)
      × (t.framer ≡ after_error s (set whole (4 + length before) b))
      × (t.events ≡ [])
turn-corrupt s before after a b address whole hf ha hb hs differ e =
    let (in_byte, lo, hi, shape) = encode_ok (sent before after a b address) address e in
    let payload : List ℕ = received before after a b address in
    let crc : ℕ = crc16 (message address (sent before after a b address)) in
    let same = same_length before after a b address in
    let corrupt =
      accept-corrupt s address payload crc
        (crc-differs before after a b address hf ha hb hs (omega arith) hi differ) in
    rw (← shape) (
      rw (set-telegram before after a b address crc) (
        unfold raw filled in
        (
          accept (filled s address payload crc) (length payload + 6),
          turn-telegram s address payload crc (omega arith) (omega arith),
          corrupt.0,
          corrupt.1,
        )))
