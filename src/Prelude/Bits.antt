-- ===== src/Prelude/Bits.antt =====
-- The laws of the bit operations at variables, from the recursion on binary digits that they mean.
use Prim.Native.Nat.{
  ℕ, zero, suc, ◌+◌, ◌-◌, ◌*◌, ◌/◌, ◌%◌, ◌^◌, ◌≤◌, ◌<◌, min, max, bit_and, bit_or, bit_xor,
}
use Prim.Native.Nat.{digits, differ, bit_and-bitwise, bit_or-bitwise, bit_xor-bitwise}
use mathlib.Core.Path.{◌≡◌, refl, ap, ◌∙◌}
use native.Mathlib.Nat.{pow-suc, one-le-pow}
use native.Mathlib.Omega.{arith}
use gepruft_lidar.Prelude.Tests.{leb, if◌then◌else◌}

module _ (z : ℕ → ℕ) (f : ℕ → ℕ → ℕ) where
  digits_enough : (n m a b : ℕ) → a ≤ n → a ≤ m → digits z f n a b ≡ digits z f m a b
  digits_enough zero zero a b p q = refl
  digits_enough zero (suc m) zero b p q = refl
  digits_enough zero (suc m) (suc a) b p q = absurd (omega arith)
  digits_enough (suc n) zero zero b p q = refl
  digits_enough (suc n) zero (suc a) b p q = absurd (omega arith)
  digits_enough (suc n) (suc m) zero b p q = refl
  digits_enough (suc n) (suc m) (suc a) b p q =
      rw (digits_enough n m (suc a / 2) (b / 2) (omega arith) (omega arith))

  digits_half :
      (a b : ℕ)
      → digits z f (suc a) (suc a) b
        ≡ digits z f (suc a / 2) (suc a / 2) (b / 2) * 2 + f (suc a % 2) (b % 2)
  digits_half a b =
      omega (arith, digits_enough a (suc a / 2) (suc a / 2) (b / 2) (omega arith) (omega arith))

differ_digit : (x y : ℕ) → x < 2 → y < 2 → differ x y ≡ (x + y) % 2
differ_digit zero zero p q = refl
differ_digit zero (suc zero) p q = refl
differ_digit (suc zero) zero p q = refl
differ_digit (suc zero) (suc zero) p q = refl
differ_digit zero (suc (suc y)) p q = absurd (omega arith)
differ_digit (suc (suc x)) y p q = absurd (omega arith)
differ_digit (suc zero) (suc (suc y)) p q = absurd (omega arith)

pub bit_xor_step : (a b : ℕ) → bit_xor a b ≡ bit_xor (a / 2) (b / 2) * 2 + (a % 2 + b % 2) % 2
bit_xor_step zero b = simp bit_xor-bitwise (omega arith)
bit_xor_step (suc a) b = simp bit_xor-bitwise (
    omega (
      arith,
      digits_half (λ y. y) differ a b,
      differ_digit (suc a % 2) (b % 2) (omega arith) (omega arith),
    ))

-- The disjunction, digit by digit.
bit_or_step : (m n : ℕ) → bit_or m n ≡ 2 * bit_or (m / 2) (n / 2) + max (m % 2) (n % 2)
bit_or_step (suc m) n = simp bit_or-bitwise (omega (arith, digits_half (λ rest. rest) max m n))
bit_or_step zero n = simp bit_or-bitwise (omega arith)

-- The conjunction, digit by digit.
bit_and_step : (m n : ℕ) → bit_and m n ≡ 2 * bit_and (m / 2) (n / 2) + min (m % 2) (n % 2)
bit_and_step (suc m) n = simp bit_and-bitwise (omega (arith, digits_half (λ rest. 0) min m n))
bit_and_step zero n = simp bit_and-bitwise (omega arith)

xor_bound : (k a b : ℕ) → a < 2 ^ k → b < 2 ^ k → bit_xor a b < 2 ^ k
xor_bound zero zero zero p q = omega arith
xor_bound zero zero (suc b) p q = absurd (omega arith)
xor_bound zero (suc a) b p q = absurd (omega arith)
xor_bound (suc k) a b p q =
    let two : 2 ^ suc k ≡ 2 ^ k * 2 = pow-suc 2 k in
    omega (arith, bit_xor_step a b, xor_bound k (a / 2) (b / 2) (omega arith) (omega arith))

-- The xor of two words of `k` bits is a word of `k` bits.
pub bit_xor-lt : (k a b : ℕ) → a < 2 ^ k → b < 2 ^ k → bit_xor a b < 2 ^ k
bit_xor-lt = xor_bound

xor_cancel_below : (n x a b : ℕ) → x ≤ n → a ≤ n → b ≤ n → bit_xor x a ≡ bit_xor x b → a ≡ b
xor_cancel_below zero x a b hx ha hb e = omega arith
xor_cancel_below (suc n) x a b hx ha hb e =
    let low : a % 2 ≡ b % 2 = omega (arith, bit_xor_step x a, bit_xor_step x b) in
    let halves : bit_xor (x / 2) (a / 2) ≡ bit_xor (x / 2) (b / 2) =
      omega (arith, bit_xor_step x a, bit_xor_step x b) in
    let high : a / 2 ≡ b / 2 =
      xor_cancel_below n (x / 2) (a / 2) (b / 2) (omega arith) (omega arith) (omega arith) halves in
    omega arith

-- `x ^ a == x ^ b` holds only if `a == b`.
pub bit_xor_cancel : (x a b : ℕ) → bit_xor x a ≡ bit_xor x b → a ≡ b
bit_xor_cancel x a b e =
    xor_cancel_below (x + a + b) x a b (omega arith) (omega arith) (omega arith) e

xor_comm_below : (n a b : ℕ) → a ≤ n → b ≤ n → bit_xor a b ≡ bit_xor b a
xor_comm_below zero zero zero p q = refl
xor_comm_below zero (suc a) b p q = absurd (omega arith)
xor_comm_below zero zero (suc b) p q = absurd (omega arith)
xor_comm_below (suc n) a b p q = omega (
  arith,
  bit_xor_step a b,
  bit_xor_step b a,
  xor_comm_below n (a / 2) (b / 2) (omega arith) (omega arith),
)

pub bit_xor_comm : (a b : ℕ) → bit_xor a b ≡ bit_xor b a
bit_xor_comm a b = xor_comm_below (a + b) a b (omega arith) (omega arith)

or_zero : (n c : ℕ) → c ≤ n → bit_or c 0 ≡ c
or_zero zero zero p = refl
or_zero zero (suc c) p = absurd (omega arith)
or_zero (suc n) c p = omega (arith, bit_or_step c 0, or_zero n (c / 2) (omega arith))

and_zero : (n c : ℕ) → c ≤ n → bit_and c 0 ≡ 0
and_zero zero zero p = refl
and_zero zero (suc c) p = absurd (omega arith)
and_zero (suc n) c p = omega (arith, bit_and_step c 0, and_zero n (c / 2) (omega arith))

double : (q k : ℕ) → q * 2 ^ suc k ≡ 2 * (q * 2 ^ k)
double q k = omega (arith, ap (λ (t : ℕ). q * t) (pow-suc 2 k))

-- `(q << k) | r` is a sum where `r` has `k` bits.
pub bit_or_sum : (k q r : ℕ) → r < 2 ^ k → bit_or (q * 2 ^ k) r ≡ q * 2 ^ k + r
bit_or_sum zero q r h = ground (arith, or_zero q q (omega arith))
bit_or_sum (suc k) q r h = ground (
  arith,
  bit_or_step (q * 2 ^ suc k) r,
  double q k,
  pow-suc 2 k,
  bit_or_sum k q (r / 2) (omega arith),
)

and_mask_fields : (k q r : ℕ) → r < 2 ^ k → bit_and (q * 2 ^ k + r) (2 ^ k - 1) ≡ r
and_mask_fields zero q r h = ground (arith, and_zero q q (omega arith))
and_mask_fields (suc k) q r h = ground (
  arith,
  bit_and_step (q * 2 ^ suc k + r) (2 ^ suc k - 1),
  double q k,
  pow-suc 2 k,
  one-le-pow k 2,
  and_mask_fields k q (r / 2) (omega arith),
)

-- A mask of `k` ones is the remainder by `2 ^ k`.
pub bit_and_mask : (k a : ℕ) → bit_and a (2 ^ k - 1) ≡ a % 2 ^ k
bit_and_mask k a = ground (arith, one-le-pow k 2, and_mask_fields k (a / 2 ^ k) (a % 2 ^ k))

-- A mask of one bit, on a word that has no higher bit.
pub bit_and_top :
    (k a : ℕ) → a < 2 ^ suc k → bit_and a (2 ^ k) ≡ (if leb (2 ^ k) a then 2 ^ k else 0)
bit_and_top zero a h = ground (arith, bit_and_step a 1, and_zero (a / 2) (a / 2) (omega arith))
bit_and_top (suc k) a h =
    ground
      (arith, bit_and_step a (2 ^ suc k), pow-suc 2 k, pow-suc 2 (suc k), bit_and_top k (a / 2))

pub bit_xor-zero : (a : ℕ) → bit_xor a 0 ≡ a
bit_xor-zero a = bit_xor_comm a 0 ∙ simp bit_xor-bitwise

-- The xor of two numbers in fields of `k` low bits and the rest is taken field by field.
pub bit_xor_fields :
    (k h l h' l' : ℕ)
    → l < 2 ^ k
    → l' < 2 ^ k
    → bit_xor (h * 2 ^ k + l) (h' * 2 ^ k + l') ≡ bit_xor h h' * 2 ^ k + bit_xor l l'
bit_xor_fields zero h zero h' zero p q = ground arith
bit_xor_fields zero h (suc l) h' l' p q = absurd (omega arith)
bit_xor_fields zero h zero h' (suc l') p q = absurd (omega arith)
bit_xor_fields (suc k) h l h' l' p q = ground (
  arith,
  bit_xor_step (h * 2 ^ suc k + l) (h' * 2 ^ suc k + l'),
  bit_xor_step l l',
  double h k,
  double h' k,
  double (bit_xor h h') k,
  pow-suc 2 k,
  bit_xor_fields k h (l / 2) h' (l' / 2) (omega (arith, pow-suc 2 k)) (omega (arith, pow-suc 2 k)),
)
