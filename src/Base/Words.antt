-- ===== src/Base/Words.antt =====
-- Machine words as native numbers: casts, complements, shifts, wrapping sums, and byte pairs.
use Prim.Native.Nat.{ℕ, ◌+◌, ◌-◌, ◌*◌, ◌/◌, ◌%◌, ◌^◌, ◌<◌, bit_and, bit_or}
use mathlib.Core.Path.{◌≡◌, ap, ◌∙◌}
use native.Mathlib.Nat.{mod-eq_of_lt}
use mathlib.Core.Bool.{Bool}
use native.Mathlib.Omega.{arith}
use reference_workload.Base.Tests.{nonzero, leb}
use reference_workload.Base.Bits.{bit_and-shifted, bit_and-ones, bit_or_fields, bit_or_fields_flip}

-- `as u8`, `as u16` and `as u32`.
abbrev pub u8 : ℕ → ℕ
u8 n = n % 2 ^ 8

abbrev pub u16 : ℕ → ℕ
u16 n = n % 2 ^ 16

abbrev pub u32 : ℕ → ℕ
u32 n = n % 2 ^ 32

-- `!x` on a `u8` and on a `u16`.
abbrev pub not8 : ℕ → ℕ
not8 x = 255 - x

abbrev pub not16 : ℕ → ℕ
not16 x = 65535 - x

infixl 75 ◌<<<◌ ◌>>>◌
abbrev pub ◌<<<◌ : ℕ → ℕ → ℕ
x <<< k = x * 2 ^ k

abbrev pub ◌>>>◌ : ℕ → ℕ → ℕ
x >>> k = x / 2 ^ k

-- `wrapping_add` and `wrapping_sub`; the modulus is added first, since `-` stops at 0.
abbrev pub add8 : ℕ → ℕ → ℕ
add8 a b = u8 (a + b)

abbrev pub sub8 : ℕ → ℕ → ℕ
sub8 a b = u8 (a + 2 ^ 8 - b)

abbrev pub add16 : ℕ → ℕ → ℕ
add16 a b = u16 (a + b)

abbrev pub sub16 : ℕ → ℕ → ℕ
sub16 a b = u16 (a + 2 ^ 16 - b)

abbrev pub add32 : ℕ → ℕ → ℕ
add32 a b = u32 (a + b)

-- `i32` values are their bit patterns: subtraction wraps, and the top bit is the sign.
abbrev pub sub32 : ℕ → ℕ → ℕ
sub32 a b = u32 (a + 2 ^ 32 - b)

abbrev pub negative : ℕ → Bool
negative a = leb (2 ^ 31) a

-- `x & mask != 0`.
abbrev pub has : ℕ → ℕ → Bool
has x mask = nonzero (bit_and x mask)

-- `lo | (hi << 8)` on two bytes read as `u16`.
unfoldable pub join : ℕ → ℕ → ℕ
join lo hi = bit_or lo (u16 (hi <<< 8))

pub join_lem : (lo hi : ℕ) → lo < 256 → hi < 256 → join lo hi ≡ hi * 256 + lo
unfolding join
join_lem lo hi p q =
    ap (bit_or lo) {x = hi * 256 % 65536} {y = hi * 256} (omega arith) ∙ bit_or_fields 8 lo hi p

-- `a & 0x00FF`.
pub low_byte_lem : (a : ℕ) → bit_and a 0xFF ≡ a % 256
low_byte_lem a = bit_and-ones 8 a

-- `a & 0xFF00`.
pub high_byte_lem : (a : ℕ) → a < 65536 → bit_and a 0xFF00 ≡ a / 256 * 256
high_byte_lem a h =
    bit_and-shifted 8 a 255
    ∙ ap (λ (t : ℕ). t * 256) (low_byte_lem (a / 256) ∙ mod-eq_of_lt (omega arith))

-- `(a & 0xFF00) | r`: the low byte of a `u16` replaced.
unfoldable pub with_low : ℕ → ℕ → ℕ
with_low a r = bit_or (bit_and a 0xFF00) r

pub with_low_lem : (a r : ℕ) → a < 65536 → r < 256 → with_low a r ≡ a / 256 * 256 + r
unfolding with_low
with_low_lem a r p q =
    ap (λ (t : ℕ). bit_or t r) (high_byte_lem a p) ∙ bit_or_fields_flip 8 (a / 256) r q

-- `0x0100 | (s & 0x00FF)`: the stack address that emulation mode forces.
unfoldable pub page_one : ℕ → ℕ
page_one s = bit_or 0x0100 (bit_and s 0x00FF)

pub page_one_lem : (s : ℕ) → page_one s ≡ 256 + s % 256
unfolding page_one
page_one_lem s = ap (bit_or 256) (low_byte_lem s) ∙ bit_or_fields_flip 8 1 (s % 256) (omega arith)

-- `(bank << 16) | offset`, a 24-bit address.
unfoldable pub long_address : ℕ → ℕ → ℕ
long_address bank off = bit_or (bank <<< 16) off

pub long_address_lem : (bank off : ℕ) → off < 65536 → long_address bank off ≡ bank * 65536 + off
unfolding long_address
long_address_lem bank off h = bit_or_fields_flip 16 bank off h
