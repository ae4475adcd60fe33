-- ===== src/Base/Bits.antt =====
-- Laws of `bit_and`, `bit_or` and `bit_xor` at variables: single bits, masks, fields, bounds.
use Prim.Native.Nat.{
  ℕ, zero, suc, ◌+◌, ◌-◌, ◌*◌, ◌/◌, ◌%◌, ◌^◌, ◌≤◌, ◌<◌, min, max, bit_and, bit_or, bit_xor,
  bit_and-bitwise, bit_or-bitwise,
}
use mathlib.Core.Path.{◌≡◌, refl, sym, ap, ◌∙◌}
use native.Mathlib.Nat.{pow-suc, one-le-pow, mul-one, div-one, div-div-eq-div-mul, div-add-mod}
use native.Mathlib.Omega.{arith}
use reference_workload.Base.Digits.{bit_and_digit, bit_or_digit, bit_xor_digit}

-- Bit `k` of a number. At a numeral `k` it computes to halvings, which `omega` reads.
abbrev pub bit : ℕ → ℕ → ℕ
bit zero x = x % 2
bit (suc k) x = bit k (x / 2)

pub bit-bit_and : (k a b : ℕ) → bit k (bit_and a b) ≡ min (bit k a) (bit k b)
bit-bit_and zero a b = omega (arith, bit_and_digit a b)
bit-bit_and (suc k) a b =
    ap (bit k) {x = bit_and a b / 2} {y = bit_and (a / 2) (b / 2)}
      (omega (arith, bit_and_digit a b))
    ∙ bit-bit_and k (a / 2) (b / 2)

pub bit-bit_or : (k a b : ℕ) → bit k (bit_or a b) ≡ max (bit k a) (bit k b)
bit-bit_or zero a b = omega (arith, bit_or_digit a b)
bit-bit_or (suc k) a b =
    ap (bit k) {x = bit_or a b / 2} {y = bit_or (a / 2) (b / 2)} (omega (arith, bit_or_digit a b))
    ∙ bit-bit_or k (a / 2) (b / 2)

pub bit-bit_xor : (k a b : ℕ) → bit k (bit_xor a b) ≡ (bit k a + bit k b) % 2
bit-bit_xor zero a b = omega (arith, bit_xor_digit a b)
bit-bit_xor (suc k) a b =
    ap (bit k) {x = bit_xor a b / 2} {y = bit_xor (a / 2) (b / 2)}
      (omega (arith, bit_xor_digit a b))
    ∙ bit-bit_xor k (a / 2) (b / 2)

-- Bounds, by a recursion on the width.
half_lt : (k a : ℕ) → a < 2 ^ suc k → a / 2 < 2 ^ k
half_lt k a h = omega (arith, pow-suc 2 k)

pub bit_or-lt : (k a b : ℕ) → a < 2 ^ k → b < 2 ^ k → bit_or a b < 2 ^ k
bit_or-lt zero zero zero p q = omega arith
bit_or-lt zero zero (suc b) p q = absurd (omega arith)
bit_or-lt zero (suc a) b p q = absurd (omega arith)
bit_or-lt (suc k) a b p q = omega (
  arith,
  pow-suc 2 k,
  bit_or_digit a b,
  bit_or-lt k (a / 2) (b / 2) (half_lt k a p) (half_lt k b q),
)

pub bit_xor-lt : (k a b : ℕ) → a < 2 ^ k → b < 2 ^ k → bit_xor a b < 2 ^ k
bit_xor-lt zero zero zero p q = omega arith
bit_xor-lt zero zero (suc b) p q = absurd (omega arith)
bit_xor-lt zero (suc a) b p q = absurd (omega arith)
bit_xor-lt (suc k) a b p q = omega (
  arith,
  pow-suc 2 k,
  bit_xor_digit a b,
  bit_xor-lt k (a / 2) (b / 2) (half_lt k a p) (half_lt k b q),
)

pub below-two-pow : (a : ℕ) → a < 2 ^ a
below-two-pow zero = omega arith
below-two-pow (suc a) = omega (arith, pow-suc 2 a, below-two-pow a)

bit_and-le_width : (k a b : ℕ) → a < 2 ^ k → bit_and a b ≤ a
bit_and-le_width zero zero b p = omega (arith, bit_and-bitwise 0 b)
bit_and-le_width zero (suc a) b p = absurd (omega arith)
bit_and-le_width (suc k) a b p =
    omega (arith, bit_and_digit a b, bit_and-le_width k (a / 2) (b / 2) (half_lt k a p))

pub bit_and-le : (a b : ℕ) → bit_and a b ≤ a
bit_and-le a b = bit_and-le_width a a b (below-two-pow a)

bit_and-le_mask_width : (k a b : ℕ) → a < 2 ^ k → bit_and a b ≤ b
bit_and-le_mask_width zero zero b p = omega (arith, bit_and-bitwise 0 b)
bit_and-le_mask_width zero (suc a) b p = absurd (omega arith)
bit_and-le_mask_width (suc k) a b p =
    omega (arith, bit_and_digit a b, bit_and-le_mask_width k (a / 2) (b / 2) (half_lt k a p))

pub bit_and-le_mask : (a b : ℕ) → bit_and a b ≤ b
bit_and-le_mask a b = bit_and-le_mask_width a a b (below-two-pow a)

-- Masks and fields.
bit_and-zero_width : (k a : ℕ) → a < 2 ^ k → bit_and a 0 ≡ 0
bit_and-zero_width zero zero p = refl
bit_and-zero_width zero (suc a) p = absurd (omega arith)
bit_and-zero_width (suc k) a p =
    omega (arith, bit_and_digit a 0, bit_and-zero_width k (a / 2) (half_lt k a p))

pub bit_and-zero : (a : ℕ) → bit_and a 0 ≡ 0
bit_and-zero a = bit_and-zero_width a a (below-two-pow a)

bit_or-zero_width : (k a : ℕ) → a < 2 ^ k → bit_or a 0 ≡ a
bit_or-zero_width zero zero p = refl
bit_or-zero_width zero (suc a) p = absurd (omega arith)
bit_or-zero_width (suc k) a p =
    omega (arith, bit_or_digit a 0, bit_or-zero_width k (a / 2) (half_lt k a p))

pub bit_or-zero : (a : ℕ) → bit_or a 0 ≡ a
bit_or-zero a = bit_or-zero_width a a (below-two-pow a)

times-two-pow-suc : (q k : ℕ) → q * 2 ^ suc k ≡ 2 * (q * 2 ^ k)
times-two-pow-suc q k = omega (arith, ap (λ (t : ℕ). q * t) (pow-suc 2 k))

half_shifted : (q k : ℕ) → q * 2 ^ suc k / 2 ≡ q * 2 ^ k
half_shifted q k = omega (arith, times-two-pow-suc q k)

half_ones : (k : ℕ) → (2 ^ suc k - 1) / 2 ≡ 2 ^ k - 1
half_ones k = omega (arith, pow-suc 2 k, one-le-pow k 2)

div-two-pow-suc : (a k : ℕ) → a / 2 ^ suc k ≡ a / 2 / 2 ^ k
div-two-pow-suc a k =
    ap (λ (t : ℕ). a / t) {x = 2 ^ suc k} {y = 2 * 2 ^ k} (omega (arith, pow-suc 2 k))
    ∙ sym (div-div-eq-div-mul a 2 (2 ^ k))

mod-two-pow-suc : (a k : ℕ) → a % 2 ^ suc k ≡ a / 2 % 2 ^ k * 2 + a % 2
mod-two-pow-suc a k = omega (
  arith,
  div-add-mod a (2 ^ suc k),
  div-add-mod (a / 2) (2 ^ k),
  pow-suc 2 k,
  ap (λ (t : ℕ). 2 ^ suc k * t) (div-two-pow-suc a k),
  ap (λ (t : ℕ). t * (a / 2 / 2 ^ k)) (pow-suc 2 k),
)

-- The low bits of a mask that ends in zeros are cleared.
pub bit_and-shifted : (k a m : ℕ) → bit_and a (m * 2 ^ k) ≡ bit_and (a / 2 ^ k) m * 2 ^ k
bit_and-shifted zero a m =
    omega (arith, ap (bit_and a) (mul-one m), ap (λ (t : ℕ). bit_and t m) (div-one a))
bit_and-shifted (suc k) a m = omega (
  arith,
  bit_and_digit a (m * 2 ^ suc k),
  times-two-pow-suc m k,
  ap (bit_and (a / 2)) (half_shifted m k),
  bit_and-shifted k (a / 2) m,
  ap (λ (t : ℕ). bit_and t m) (div-two-pow-suc a k),
  ap (λ (t : ℕ). t * 2 ^ suc k) (ap (λ (t : ℕ). bit_and t m) (div-two-pow-suc a k)),
  times-two-pow-suc (bit_and (a / 2 / 2 ^ k) m) k,
)

-- A mask of `k` ones is the remainder by `2 ^ k`.
pub bit_and-ones : (k a : ℕ) → bit_and a (2 ^ k - 1) ≡ a % 2 ^ k
bit_and-ones zero a = omega (arith, bit_and-zero a)
bit_and-ones (suc k) a = omega (
  arith,
  bit_and_digit a (2 ^ suc k - 1),
  pow-suc 2 k,
  one-le-pow k 2,
  bit_and-ones k (a / 2),
  ap (bit_and (a / 2)) (half_ones k),
  mod-two-pow-suc a k,
)

-- `lo | (hi << k)` is a sum when `lo` fits in `k` bits.
pub bit_or_fields : (k lo hi : ℕ) → lo < 2 ^ k → bit_or lo (hi * 2 ^ k) ≡ hi * 2 ^ k + lo
bit_or_fields zero zero hi h = omega (arith, bit_or-bitwise 0 (hi * 1))
bit_or_fields zero (suc lo) hi h = absurd (omega arith)
bit_or_fields (suc k) lo hi h = omega (
  arith,
  bit_or_digit lo (hi * 2 ^ suc k),
  times-two-pow-suc hi k,
  ap (bit_or (lo / 2)) (half_shifted hi k),
  bit_or_fields k (lo / 2) hi (half_lt k lo h),
)

-- `(hi << k) | lo`, likewise.
pub bit_or_fields_flip : (k hi lo : ℕ) → lo < 2 ^ k → bit_or (hi * 2 ^ k) lo ≡ hi * 2 ^ k + lo
bit_or_fields_flip zero hi zero h = omega (arith, bit_or-zero (hi * 1))
bit_or_fields_flip zero hi (suc lo) h = absurd (omega arith)
bit_or_fields_flip (suc k) hi lo h = omega (
  arith,
  bit_or_digit (hi * 2 ^ suc k) lo,
  times-two-pow-suc hi k,
  ap (λ (t : ℕ). bit_or t (lo / 2)) (half_shifted hi k),
  bit_or_fields_flip k hi (lo / 2) (half_lt k lo h),
)

pub bit_and_power : (k a : ℕ) → bit_and a (2 ^ k) ≡ bit k a * 2 ^ k
bit_and_power zero a = omega (arith, bit_and_digit a 1, bit_and-zero (a / 2))
bit_and_power (suc k) a = omega (
  arith,
  bit_and_digit a (2 ^ suc k),
  pow-suc 2 k,
  ap (bit_and (a / 2)) {x = 2 ^ suc k / 2} {y = 2 ^ k} (omega (arith, pow-suc 2 k)),
  bit_and_power k (a / 2),
  times-two-pow-suc (bit k (a / 2)) k,
)
