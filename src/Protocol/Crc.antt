-- ===== src/Protocol/Crc.antt =====
-- src/lms200/protocol/crc.py. A byte string is a list of numbers.
pub mod SingleByte
use gepruft_lidar.Prelude.{
  ℕ, zero, suc, ◌+◌, ◌*◌, ◌-◌, ◌^◌, ◌<◌, ◌≤◌, ◌≡◌, refl, ap, ◌∙◌, List, [], ◌∷◌, arith, bit_and,
  bit_or, bit_xor, ◌==◌, ltb, if◌then◌else◌, All,
}
use gepruft_lidar.Prelude.Bits.{
  bit_and_top, bit_and_mask, bit_or_sum, bit_xor-zero, bit_xor-lt, bit_xor_fields,
}

abbrev pub IsByte : ℕ → Type 0
IsByte b = b < 256

-- ((result << 1) ^ (0x8005 if result & 0x8000 else 0)) & 0xFFFF
unfoldable pub shifted : ℕ → ℕ
shifted result =
    bit_and (bit_xor (result * 2 ^ 1) (if bit_and result 0x8000 == 0 then 0 else 0x8005)) 0xFFFF

-- result ^= (previous << 8) | current
unfoldable pub crc_step : ℕ → ℕ → ℕ → ℕ
unfolding shifted
crc_step result previous current = bit_xor (shifted result) (bit_or (previous * 2 ^ 8) current)

unfoldable pub crc_loop : List ℕ → ℕ → ℕ → ℕ
unfolding crc_step
crc_loop [] result previous = result
crc_loop (current ∷ rest) result previous = crc_loop rest (crc_step result previous current) current

unfoldable pub crc16 : List ℕ → ℕ
unfolding crc_loop
crc16 bytes = crc_loop bytes 0 0

shifted_low : (r : ℕ) → r < 32768 → shifted r ≡ 2 * r
unfolding shifted
shifted_low r h =
    ground (arith, bit_and_top 15 r (omega arith), bit_xor-zero (r * 2), bit_and_mask 16 (r * 2))

shifted_high : (r : ℕ) → 32768 ≤ r → r < 65536 → shifted r ≡ bit_xor (2 * r - 65536) 0x8005
unfolding shifted
shifted_high r l h = ground (
  arith,
  bit_and_top 15 r h,
  carry,
  bit_and_mask 16 (bit_xor (r * 2) 0x8005),
  bit_xor-lt 16 (2 * r - 65536) 0x8005 (omega arith) (omega arith),
)
  where
    carry : bit_xor (r * 2) 0x8005 ≡ 65536 + bit_xor (2 * r - 65536) 0x8005
    carry =
        ap (λ (t : ℕ). bit_xor t 0x8005) (omega arith)
        ∙ bit_xor_fields 16 1 (2 * r - 65536) 0 0x8005 (omega arith) (omega arith)

-- The shift in plain terms: the carry out of bit 15 folds the polynomial back in.
pub shifted_lem :
    (r : ℕ)
    → r < 65536
    → shifted r ≡ (if ltb r 32768 then 2 * r else bit_xor (2 * r - 65536) 0x8005)
shifted_lem r h = ground (arith, shifted_low r, shifted_high r)

pub shifted-lt : (r : ℕ) → r < 65536 → shifted r < 65536
shifted-lt r h = ground (arith, shifted_lem r h, bit_xor-lt 16 (2 * r - 65536) 0x8005)

pub crc_step-lt : (r p c : ℕ) → r < 65536 → IsByte p → IsByte c → crc_step r p c < 65536
unfolding crc_step
crc_step-lt r p c h hp hc =
    ground (arith, shifted-lt r h, bit_or_sum 8 p c hc, bit_xor-lt 16 (shifted r) (p * 256 + c))

crc_loop-lt :
    (bs : List ℕ) (r p : ℕ) → r < 65536 → IsByte p → All IsByte bs → crc_loop bs r p < 65536
unfolding crc_loop
crc_loop-lt [] r p h hp hs = h
crc_loop-lt (c ∷ bs) r p h hp (hc, hs) =
    crc_loop-lt bs (crc_step r p c) c (crc_step-lt r p c h hp hc) hc hs

pub crc16-lt : (bs : List ℕ) → All IsByte bs → crc16 bs < 65536
unfolding crc16
crc16-lt bs h = crc_loop-lt bs 0 0 (omega arith) (omega arith) h

-- The published status request, 02 00 01 00 31 15 12.
pub crc16_golden : crc16 (0x02 ∷ 0x00 ∷ 0x01 ∷ 0x00 ∷ 0x31 ∷ []) ≡ 0x1215
unfolding crc16 crc_loop crc_step shifted
crc16_golden = refl
