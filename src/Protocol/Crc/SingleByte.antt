-- ===== src/Protocol/Crc/SingleByte.antt =====
-- The checksum of src/lms200/protocol/crc.py tells two byte strings apart that differ in one byte.
use gepruft_lidar.Prelude.{
  ℕ, ◌+◌, ◌*◌, ◌-◌, ◌/◌, ◌%◌, ◌^◌, ◌≤◌, ◌<◌, ◌≡◌, ◌≢◌, sym, ap, ◌∙◌, List, [], ◌∷◌, ◌++◌, arith,
  bit_xor, bit_or, ltb, if◌then◌else◌, All,
}
use gepruft_lidar.Prelude.Bits.{
  bit_or_sum, bit_xor-lt, bit_xor_fields, bit_xor_step, bit_xor_cancel, bit_xor_comm,
}
use gepruft_lidar.Protocol.Crc.{
  IsByte, shifted, shifted_lem, shifted-lt, crc_step, crc_step-lt, crc_loop, crc16,
}

xor_parity : (a b : ℕ) → bit_xor a b % 2 ≡ (a + b) % 2
xor_parity a b = omega (arith, bit_xor_step a b)

-- The shift loses nothing.
shifted_injective : (r s : ℕ) → r < 65536 → s < 65536 → shifted r ≡ shifted s → r ≡ s
shifted_injective r s hr hs e = ground (
  arith,
  shifted_lem r hr,
  shifted_lem s hs,
  xor_parity (2 * r - 65536) 0x8005,
  xor_parity (2 * s - 65536) 0x8005,
  bit_xor_comm (2 * r - 65536) 0x8005,
  bit_xor_comm (2 * s - 65536) 0x8005,
  bit_xor_cancel 0x8005 (2 * r - 65536) (2 * s - 65536),
)

crc_step_injective : (r s p c : ℕ) → r < 65536 → s < 65536 → crc_step r p c ≡ crc_step s p c → r ≡ s
unfolding crc_step
crc_step_injective r s p c hr hs e =
    let word : ℕ = bit_or (p * 2 ^ 8) c in
    shifted_injective r s hr hs (
      bit_xor_cancel word (shifted r) (shifted s)
        (bit_xor_comm word (shifted r) ∙ e ∙ bit_xor_comm (shifted s) word))

-- Two states that differ stay apart as long as the same bytes follow.
crc_loop_injective :
    (bs : List ℕ) (r s p : ℕ)
    → r < 65536
    → s < 65536
    → IsByte p
    → All IsByte bs
    → crc_loop bs r p ≡ crc_loop bs s p
    → r ≡ s
unfolding crc_loop
crc_loop_injective [] r s p hr hs hp hb e = e
crc_loop_injective (c ∷ bs) r s p hr hs hp (hc, hb) e = crc_step_injective r s p c hr hs (
    crc_loop_injective bs (crc_step r p c) (crc_step s p c) c (crc_step-lt r p c hr hp hc)
      (crc_step-lt s p c hs hp hc) hc hb e)

-- One step, taken on the two bytes of the word.
crc_step_fields :
    (r p c : ℕ)
    → r < 65536
    → IsByte p
    → IsByte c
    → crc_step r p c ≡ bit_xor (shifted r / 256) p * 256 + bit_xor (shifted r % 256) c
unfolding crc_step
crc_step_fields r p c hr hp hc =
    let S : ℕ = shifted r in
    rw (bit_or_sum 8 p c hc) (
      ap (λ (t : ℕ). bit_xor t (p * 256 + c)) split
      ∙ bit_xor_fields 8 (S / 256) (S % 256) p c (omega arith) hc)
  where
    split : shifted r ≡ shifted r / 256 * 256 + shifted r % 256
    split = omega arith

shifted_fields :
    (h u : ℕ)
    → 128 ≤ h
    → IsByte h
    → IsByte u
    → shifted (h * 256 + u) ≡ bit_xor (2 * h - 256 + u / 128) 128 * 256 + bit_xor (2 * u % 256) 5
shifted_fields h u low hh hu =
    ground (arith, shifted_lem (h * 256 + u) (omega arith))
    ∙ ap (λ (t : ℕ). bit_xor t 0x8005) split
    ∙ bit_xor_fields 8 (2 * h - 256 + u / 128) (2 * u % 256) 128 5 (omega arith) (omega arith)
  where
    split : 2 * (h * 256 + u) - 65536 ≡ (2 * h - 256 + u / 128) * 256 + 2 * u % 256
    split = omega arith

-- The bit that the shift carries from the low byte into the high one.
shifted_carry : (h u : ℕ) → IsByte h → IsByte u → shifted (h * 256 + u) / 256 % 2 ≡ u / 128
shifted_carry h u hh hu = ground (
  arith,
  shifted_lem (h * 256 + u) (omega arith),
  shifted_fields h u,
  xor_parity (2 * h - 256 + u / 128) 128,
  bit_xor-lt 8 (2 * u % 256) 5 (omega arith) (omega arith),
)

shifted_low_byte :
    (h u : ℕ)
    → IsByte h
    → IsByte u
    → shifted (h * 256 + u) % 256 ≡ (if ltb h 128 then 2 * u % 256 else bit_xor (2 * u % 256) 5)
shifted_low_byte h u hh hu = ground (
  arith,
  shifted_lem (h * 256 + u) (omega arith),
  shifted_fields h u,
  bit_xor-lt 8 (2 * u % 256) 5 (omega arith) (omega arith),
)

-- Two low bytes that shift to the same low byte agree but for their top bit.
shifted_low_cancel :
    (h u v : ℕ)
    → IsByte h
    → IsByte u
    → IsByte v
    → shifted (h * 256 + u) % 256 ≡ shifted (h * 256 + v) % 256
    → u % 128 ≡ v % 128
shifted_low_cancel h u v hh hu hv e = ground (
  arith,
  shifted_low_byte h u hh hu,
  shifted_low_byte h v hh hv,
  bit_xor_comm 5 (2 * u % 256),
  bit_xor_comm 5 (2 * v % 256),
  bit_xor_cancel 5 (2 * u % 256) (2 * v % 256),
)

-- After the byte `a` or `b` and the byte `c`, equal states mean equal bytes.
next_step_apart :
    (h x a b c : ℕ)
    → IsByte h
    → IsByte x
    → IsByte a
    → IsByte b
    → IsByte c
    → crc_step (h * 256 + bit_xor x a) a c ≡ crc_step (h * 256 + bit_xor x b) b c
    → a ≡ b
next_step_apart h x a b c hh hx ha hb hc e =
    let u : ℕ = bit_xor x a in
    let v : ℕ = bit_xor x b in
    let r : ℕ = h * 256 + u in
    let s : ℕ = h * 256 + v in
    let hu : u < 256 = bit_xor-lt 8 x a hx ha in
    let hv : v < 256 = bit_xor-lt 8 x b hx hb in
    let hr : r < 65536 = omega arith in
    let hs : s < 65536 = omega arith in
    let low_r : bit_xor (shifted r % 256) c < 256 = bit_xor-lt 8 _ c (omega arith) hc in
    let low_s : bit_xor (shifted s % 256) c < 256 = bit_xor-lt 8 _ c (omega arith) hc in
    let fields_r = crc_step_fields r a c hr ha hc in
    let fields_s = crc_step_fields s b c hs hb hc in
    let lows : bit_xor (shifted r % 256) c ≡ bit_xor (shifted s % 256) c = omega arith in
    let highs : bit_xor (shifted r / 256) a ≡ bit_xor (shifted s / 256) b = omega arith in
    let low_bits : u % 128 ≡ v % 128 = shifted_low_cancel h u v hh hu hv (
      bit_xor_cancel c (shifted r % 256) (shifted s % 256)
        (bit_xor_comm c (shifted r % 256) ∙ lows ∙ bit_xor_comm (shifted s % 256) c)) in
    let top_bit : u / 128 ≡ v / 128 = omega (
      arith,
      shifted_carry h u hh hu,
      shifted_carry h v hh hv,
      xor_parity (shifted r / 256) a,
      xor_parity (shifted s / 256) b,
      xor_parity x a,
      xor_parity x b,
    ) in
    bit_xor_cancel x a b (omega arith)

-- From one state, two strings that differ in their first byte only end in different states.
head_apart :
    (bs : List ℕ) (r p a b : ℕ)
    → r < 65536
    → IsByte p
    → IsByte a
    → IsByte b
    → All IsByte bs
    → crc_loop (a ∷ bs) r p ≡ crc_loop (b ∷ bs) r p
    → a ≡ b
unfolding crc_loop
head_apart [] r p a b hr hp ha hb hs e =
    bit_xor_cancel (shifted r % 256) a b
      (omega (arith, crc_step_fields r p a hr hp ha, crc_step_fields r p b hr hp hb))
head_apart (c ∷ bs) r p a b hr hp ha hb (hc, hs) e =
    let S : ℕ = shifted r in
    let hS : S < 65536 = shifted-lt r hr in
    let t = crc_step r p a in
    let t' = crc_step r p b in
    let ht = crc_step-lt r p a hr hp ha in
    let ht' = crc_step-lt r p b hr hp hb in
    let same : crc_step t a c ≡ crc_step t' b c =
      crc_loop_injective bs _ _ c (crc_step-lt t a c ht ha hc) (crc_step-lt t' b c ht' hb hc) hc hs
        e in
    next_step_apart (bit_xor (S / 256) p) (S % 256) a b c
      (bit_xor-lt 8 (S / 256) p (omega arith) hp) (omega arith) ha hb hc
      (ap (λ (q : ℕ). crc_step q a c) (sym (crc_step_fields r p a hr hp ha))
        ∙ same
        ∙ ap (λ (q : ℕ). crc_step q b c) (crc_step_fields r p b hr hp hb))

-- The same, with bytes in front.
crc_loop_apart :
    (front back : List ℕ) (r p a b : ℕ)
    → r < 65536
    → IsByte p
    → All IsByte front
    → IsByte a
    → IsByte b
    → All IsByte back
    → crc_loop (front ++ (a ∷ back)) r p ≡ crc_loop (front ++ (b ∷ back)) r p
    → a ≡ b
crc_loop_apart [] back r p a b hr hp hf ha hb hs e = head_apart back r p a b hr hp ha hb hs e
crc_loop_apart (c ∷ front) back r p a b hr hp (hc, hf) ha hb hs e =
    crc_loop_apart front back (crc_step r p c) c a b (crc_step-lt r p c hr hp hc) hc hf ha hb hs
      (unfold crc_loop in e)

-- Two byte strings that differ in exactly one byte, wherever it stands, have different checksums.
pub crc16_detects_single_byte :
    (front back : List ℕ) (a b : ℕ)
    → All IsByte front
    → IsByte a
    → IsByte b
    → All IsByte back
    → a ≢ b
    → crc16 (front ++ (a ∷ back)) ≢ crc16 (front ++ (b ∷ back))
unfolding crc16
crc16_detects_single_byte front back a b hf ha hb hs differ e =
    differ (crc_loop_apart front back 0 0 a b (omega arith) (omega arith) hf ha hb hs e)
