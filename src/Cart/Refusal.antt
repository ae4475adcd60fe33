-- ===== src/Cart/Refusal.antt =====
-- How `from_rom` decides: what it accepts, and which error it gives for what it refuses.
use reference_workload.Base.{
  ℕ, ◌-◌, ◌<◌, ◌≤◌, ◌≡◌, ◌∙◌, refl, sym, Bool-cases, inl, inr, if_true, if_false, ltb, arith, List,
  length, Option, none, some,
}
use mathlib.Core.Path.{subst}
use reference_workload.Cart.{
  Loaded, loaded, bad_rom_size, bad_reset_vector, bad_sram_size, bad_rom, bad_sram, with_sram,
  reset_vector, from_rom,
}
use reference_workload.Cart.Sizes.{IsPower, good_rom, refused_rom, good_sram, refused_sram}

-- A ROM that mirrors cleanly, and a save RAM of a size the code takes.
abbrev pub IsRomSize : ℕ → Type 0
IsRomSize n = IsPower n × (0x8000 ≤ n)

abbrev pub IsSramSize : ℕ → Type 0
IsSramSize n = IsPower n × (2048 ≤ n) × (n ≤ 0x8_0000)

abbrev pub FitsSram : Option (List ℕ) → Type 0
FitsSram none = Unit
FitsSram (some s) = IsSramSize (length s)

-- An outcome and what it says of the image.
pub data IsExplained (rom : List ℕ) (sram : Option (List ℕ)) : Loaded → Type 0 where
  rom_size : ¬ (IsRomSize (length rom)) → IsExplained rom sram (bad_rom_size (length rom))
  vector :
      IsRomSize (length rom)
      → reset_vector rom < 0x8000
      → IsExplained rom sram (bad_reset_vector (reset_vector rom))
  sram_size :
      (s : List ℕ)
      → sram ≡ some s
      → IsRomSize (length rom)
      → 0x8000 ≤ reset_vector rom
      → ¬ (IsSramSize (length s))
      → IsExplained rom sram (bad_sram_size (length s))
  accepted :
      IsRomSize (length rom)
      → 0x8000 ≤ reset_vector rom
      → FitsSram sram
      → IsExplained rom sram (loaded (record { rom = rom; rom_mask = length rom - 1; sram = sram }))

with_sram-IsExplained :
    (rom : List ℕ) (sram : Option (List ℕ))
    → IsRomSize (length rom)
    → 0x8000 ≤ reset_vector rom
    → IsExplained rom sram (with_sram rom sram)
unfolding with_sram
with_sram-IsExplained rom none r v = accepted r v tt
with_sram-IsExplained rom (some s) r v = elim (Bool-cases (bad_sram (length s))) [
  | inl t ↦
      subst (IsExplained rom (some s)) (sym (if_true (bad_sram (length s)) _ _ t))
        (sram_size s refl r v (refused_sram (length s) t))
  | inr t ↦
      subst (IsExplained rom (some s)) (sym (if_false (bad_sram (length s)) _ _ t))
        (accepted r v (good_sram (length s) t))
]

-- For every image and save RAM `from_rom` gives one of four outcomes. It is `BadRomSize` with the
-- length where that is no power of two of at least 32 KiB; with a good length it is
-- `BadResetVector` with the vector where that is below 0x8000; with both good it is `BadSramSize`
-- with the length of a save RAM that is no power of two from 2 KiB to 512 KiB; and it is the
-- cartridge of the two memories, with the ROM's length less one as mask, where all three are good.
pub from_rom-IsExplained :
    (rom : List ℕ) (sram : Option (List ℕ)) → IsExplained rom sram (from_rom rom sram)
unfolding from_rom
from_rom-IsExplained rom sram = elim (Bool-cases (bad_rom (length rom))) [
  | inl t ↦
      subst (IsExplained rom sram) (sym (if_true (bad_rom (length rom)) _ _ t))
        (rom_size (refused_rom (length rom) t))
  | inr t ↦ elim (Bool-cases (ltb (length rom) 0x8000)) [
    | inl u ↦ absurd (ground (arith, u, (good_rom (length rom) t).1))
    | inr u ↦ elim (Bool-cases (ltb (reset_vector rom) 0x8000)) [
      | inl v ↦
          subst (IsExplained rom sram)
            (sym (
              if_false (bad_rom (length rom)) _ _ t
              ∙ if_false (ltb (length rom) 0x8000) _ _ u
              ∙ if_true (ltb (reset_vector rom) 0x8000) _ _ v))
            (vector (good_rom (length rom) t) (ground (arith, v)))
      | inr v ↦
          subst (IsExplained rom sram)
            (sym (
              if_false (bad_rom (length rom)) _ _ t
              ∙ if_false (ltb (length rom) 0x8000) _ _ u
              ∙ if_false (ltb (reset_vector rom) 0x8000) _ _ v))
            (with_sram-IsExplained rom sram (good_rom (length rom) t) (ground (arith, v)))
    ]
  ]
]
