-- ===== src/Ppu/Colour.antt =====
-- Colour math works channel by channel.
use reference_workload.Base.{
  ◌⊎◌, inl, inr, true, false, ◌≤◌, Bool-cases, ltb, leb, ℕ, ◌+◌, ◌*◌, ◌^◌, ◌<◌, ◌≡◌, sym, ap, ◌∙◌,
  Bool, u8, u16, ◌<<<◌, ◌>>>◌, bit_and, bit_or, arith,
}
use mathlib.Core.Path.{subst}
use reference_workload.Base.Bits.{bit_and-ones, bit_or_fields}
use reference_workload.Ppu.{cgram_color_components_fixed, channel, color_math_op}

channel-lt : (main sub : ℕ) (add half : Bool) → channel main sub add half < 2 ^ 5
unfolding channel
channel-lt main sub add half = ground arith

-- A packed colour.
packed_lem :
    (r g b : ℕ)
    → r < 2 ^ 5
    → g < 2 ^ 5
    → b < 2 ^ 5
    → bit_or (bit_or r (u16 (g <<< 5))) (u16 (b <<< 10)) ≡ b * 1024 + (g * 32 + r)
packed_lem r g b p q s =
    ap (λ (x : ℕ). bit_or (bit_or r x) (u16 (b <<< 10))) {x = u16 (g * 32)} {y = g * 32}
      (omega (arith, q))
    ∙ ap (λ (x : ℕ). bit_or x (u16 (b <<< 10))) (bit_or_fields 5 r g p)
    ∙ ap (bit_or (g * 32 + r)) {x = u16 (b * 1024)} {y = b * 1024} (omega (arith, s))
    ∙ bit_or_fields 10 (g * 32 + r) b (omega (arith, p, q))

components_lem :
    (r g b : ℕ)
    → r < 2 ^ 5
    → g < 2 ^ 5
    → b < 2 ^ 5
    → cgram_color_components_fixed (b * 1024 + (g * 32 + r)) ≡ (r, g, b)
unfolding cgram_color_components_fixed
components_lem r g b p q s =
    let c = b * 1024 + (g * 32 + r) in
    let red : u8 (bit_and c 0x1F) ≡ r = omega (arith, bit_and-ones 5 c, p) in
    let green : u8 (bit_and (c >>> 5) 0x1F) ≡ g = omega (arith, bit_and-ones 5 (c >>> 5), p, q) in
    let blue : u8 (bit_and (c >>> 10) 0x1F) ≡ b =
      omega (arith, bit_and-ones 5 (c >>> 10), p, q, s) in
    (λ i. (red i, green i, blue i))

components-channels :
    (main_r main_g main_b sub_r sub_g sub_b : ℕ) (add half : Bool)
    → cgram_color_components_fixed (color_math_op main_r main_g main_b sub_r sub_g sub_b add half)
      ≡ (
        channel main_r sub_r add half,
        channel main_g sub_g add half,
        channel main_b sub_b add half,
      )
unfolding color_math_op
components-channels main_r main_g main_b sub_r sub_g sub_b add half =
    let p = channel-lt main_r sub_r add half in
    let q = channel-lt main_g sub_g add half in
    let s = channel-lt main_b sub_b add half in
    ap cgram_color_components_fixed (
      packed_lem (channel main_r sub_r add half) (channel main_g sub_g add half)
        (channel main_b sub_b add half) p q s)
    ∙ components_lem (channel main_r sub_r add half) (channel main_g sub_g add half)
        (channel main_b sub_b add half) p q s

-- What a channel of the result is, of two channels of five bits: the sum or the difference,
-- saturated at 31 and 0; or half of it, rounded down, where nothing saturates above.
unfoldable pub IsMath : (add half : Bool) → (main sub result : ℕ) → Type 0
IsMath true true main sub result = (2 * result ≤ main + sub) × (main + sub ≤ 2 * result + 1)
IsMath true false main sub result =
    ((main + sub ≤ 31) × (result ≡ main + sub)) ⊎ ((31 < main + sub) × (result ≡ 31))
IsMath false true main sub result =
    ((sub ≤ main) × (sub + 2 * result ≤ main) × (main ≤ sub + 2 * result + 1))
    ⊎ ((main < sub) × (result ≡ 0))
IsMath false false main sub result =
    ((sub ≤ main) × (sub + result ≡ main)) ⊎ ((main < sub) × (result ≡ 0))

channel-IsMath :
    (main sub : ℕ) (add half : Bool)
    → main < 2 ^ 5
    → sub < 2 ^ 5
    → IsMath add half main sub (channel main sub add half)
unfolding channel IsMath
channel-IsMath main sub true true p q = ground arith
channel-IsMath main sub true false p q = elim (Bool-cases (leb (main + sub) 31)) [
  | inl t ↦ inl (ground (arith, t), ground (arith, t))
  | inr t ↦ inr (ground (arith, t), ground (arith, t))
]
channel-IsMath main sub false true p q = elim (Bool-cases (ltb main sub)) [
  | inl t ↦ inr (ground (arith, t), ground (arith, t))
  | inr t ↦ inl (ground (arith, t), ground (arith, t), ground (arith, t))
]
channel-IsMath main sub false false p q = elim (Bool-cases (ltb main sub)) [
  | inl t ↦ inr (ground (arith, t), ground (arith, t))
  | inr t ↦ inl (ground (arith, t), ground (arith, t))
]

-- The colour that `color_math_op` packs comes apart into three channels, each of which is the colour
-- math of its own two operands alone, which have five bits: half an addition is the half of the full
-- sum, which never saturates, and a sum or a difference is exact or stands at 31 or 0 exactly where
-- it passes them; no channel carries into the next.
pub components-color_math_op :
    (main_r main_g main_b sub_r sub_g sub_b : ℕ) (add half : Bool)
    → main_r < 2 ^ 5
    → main_g < 2 ^ 5
    → main_b < 2 ^ 5
    → sub_r < 2 ^ 5
    → sub_g < 2 ^ 5
    → sub_b < 2 ^ 5
    → (let (r, g, b) =
          cgram_color_components_fixed
            (color_math_op main_r main_g main_b sub_r sub_g sub_b add half) in
        IsMath add half main_r sub_r r
        × IsMath add half main_g sub_g g
        × IsMath add half main_b sub_b b)
components-color_math_op main_r main_g main_b sub_r sub_g sub_b add half p q s p' q' s' =
    subst
      (λ (c : ℕ × ℕ × ℕ).
        IsMath add half main_r sub_r c.0
        × IsMath add half main_g sub_g c.1
        × IsMath add half main_b sub_b c.2)
      (sym (components-channels main_r main_g main_b sub_r sub_g sub_b add half))
      (
        channel-IsMath main_r sub_r add half p p',
        channel-IsMath main_g sub_g add half q q',
        channel-IsMath main_b sub_b add half s s',
      )
