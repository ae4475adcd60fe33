-- ===== src/Cart/Loading.antt =====
-- What `from_rom` accepts.
use reference_workload.Base.{
  ℕ, ◌-◌, ◌<◌, ◌≤◌, ◌≡◌, refl, sym, ap, ◌∙◌, false, Bool-cases, inl, inr, if_true, if_false, ltb,
  arith, List, length, Option, none, some,
}
use mathlib.Core.Path.{subst}
use reference_workload.Cart.{
  Cartridge, Loaded, loaded, bad_rom_size, bad_reset_vector, bad_sram_size, bad_rom, bad_sram,
  with_sram, reset_vector, from_rom,
}
use reference_workload.Cart.Access.{HasBytes, IsValid}

-- The cartridge that was made, or another where none was.
abbrev made : Cartridge → Loaded → Cartridge
made other (loaded c) = c
made other (bad_rom_size n) = other
made other (bad_reset_vector n) = other
made other (bad_sram_size n) = other

-- What an accepted image has.
pub record IsAccepted (rom : List ℕ) (sram : Option (List ℕ)) (c : Cartridge) : Type 0 where
  pub valid : IsValid c
  pub same_rom : c.rom ≡ rom
  pub same_sram : c.sram ≡ sram
  pub whole_page : 0x8000 ≤ length rom
  pub vector_in_rom : 0x8000 ≤ reset_vector rom

bad_sram_zero : (len : ℕ) → bad_sram len ≡ false → 0 < len
unfolding bad_sram
bad_sram_zero len h = ground (arith, h)

fresh-IsAccepted :
    (rom : List ℕ) (sram : Option (List ℕ))
    → 0x8000 ≤ length rom
    → 0x8000 ≤ reset_vector rom
    → HasBytes sram
    → IsAccepted rom sram (record { rom = rom; rom_mask = length rom - 1; sram = sram })
fresh-IsAccepted rom sram h k s = record {
  valid = record { rom_bytes = omega arith; masked = refl; sram_bytes = s };
  same_rom = refl;
  same_sram = refl;
  whole_page = h;
  vector_in_rom = k;
}

with_sram-IsAccepted :
    (rom : List ℕ) (sram : Option (List ℕ)) (c : Cartridge)
    → 0x8000 ≤ length rom
    → 0x8000 ≤ reset_vector rom
    → with_sram rom sram ≡ loaded c
    → IsAccepted rom sram c
unfolding with_sram
with_sram-IsAccepted rom none c h k e =
    subst (IsAccepted rom none) (ap (made c) e) (fresh-IsAccepted rom none h k tt)
with_sram-IsAccepted rom (some s) c h k e = elim (Bool-cases (bad_sram (length s))) [
  | inl t ↦ absurd (ground (arith, sym (if_true (bad_sram (length s)) _ _ t) ∙ e))
  | inr t ↦
      subst (IsAccepted rom (some s)) (ap (made c) (sym (if_false (bad_sram (length s)) _ _ t) ∙ e))
        (fresh-IsAccepted rom (some s) h k (bad_sram_zero (length s) t))
]

-- A cartridge that `from_rom` makes holds the given ROM and save RAM, has a ROM of at least 32 KiB
-- whose reset vector points into ROM, and is valid: both memories are nonempty and the mask is the
-- length less one.
pub from_rom-IsAccepted :
    (rom : List ℕ) (sram : Option (List ℕ)) (c : Cartridge)
    → from_rom rom sram ≡ loaded c
    → IsAccepted rom sram c
unfolding from_rom
from_rom-IsAccepted rom sram c e = elim (Bool-cases (bad_rom (length rom))) [
  | inl t ↦ absurd (ground (arith, sym (if_true (bad_rom (length rom)) _ _ t) ∙ e))
  | inr t ↦ elim (Bool-cases (ltb (length rom) 0x8000)) [
    | inl u ↦ absurd (
        ground (
          arith,
          sym (if_false (bad_rom (length rom)) _ _ t ∙ if_true (ltb (length rom) 0x8000) _ _ u) ∙ e,
        ))
    | inr u ↦ elim (Bool-cases (ltb (reset_vector rom) 0x8000)) [
      | inl v ↦ absurd (
          ground (
            arith,
            sym (
                  if_false (bad_rom (length rom)) _ _ t
                  ∙ if_false (ltb (length rom) 0x8000) _ _ u
                  ∙ if_true (ltb (reset_vector rom) 0x8000) _ _ v)
                ∙ e,
          ))
      | inr v ↦ with_sram-IsAccepted rom sram c (ground (arith, u)) (ground (arith, v)) (
          sym (
            if_false (bad_rom (length rom)) _ _ t
            ∙ if_false (ltb (length rom) 0x8000) _ _ u
            ∙ if_false (ltb (reset_vector rom) 0x8000) _ _ v)
          ∙ e)
    ]
  ]
]

pub from_rom-with_sram :
    (rom : List ℕ) (sram : Option (List ℕ))
    → bad_rom (length rom) ≡ false
    → ltb (length rom) 0x8000 ≡ false
    → ltb (reset_vector rom) 0x8000 ≡ false
    → from_rom rom sram ≡ with_sram rom sram
unfolding from_rom
from_rom-with_sram rom sram t u v =
    if_false (bad_rom (length rom)) _ _ t
    ∙ if_false (ltb (length rom) 0x8000) _ _ u
    ∙ if_false (ltb (reset_vector rom) 0x8000) _ _ v
