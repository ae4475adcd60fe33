-- ===== src/Cart/Examples.antt =====
-- Small cartridges.
use reference_workload.Base.{
  ℕ, zero, suc, ◌-◌, ◌<◌, ◌≡◌, ◌≢◌, refl, ap, ◌∙◌, true, false, List, [], ◌∷◌, length, get_or,
  replicate, some, arith, join, join_lem, ltb, if_false,
}
use reference_workload.Cart.{
  Cartridge, loaded, panicked, read, write, bad_rom, bad_sram, with_sram, reset_vector, from_rom,
  is_power_of_two,
}
use reference_workload.Cart.Access.{
  IsValid, IsStored, saved, read-not_panicked, read-write, write-upper_half,
}
use reference_workload.Cart.Refusal.{IsExplained, from_rom-IsExplained}
use reference_workload.Cart.Loading.{IsAccepted, from_rom-IsAccepted, from_rom-with_sram}

-- A cartridge of four ROM bytes and two save RAM bytes.
abbrev small : Cartridge
small = record { rom = 1 ∷ 2 ∷ 3 ∷ 4 ∷ []; rom_mask = 3; sram = some (5 ∷ 6 ∷ []) }

small-IsValid : IsValid small
small-IsValid = record { rom_bytes = omega arith; masked = refl; sram_bytes = omega arith }

read-not_panicked_example : read small 0x00_8006 ≢ panicked
read-not_panicked_example = read-not_panicked small 0x00_8006 small-IsValid

read-write_example :
    ((write 0x70_0001 9 small).0 ≡ true → IsStored small 0x70_0001 9 (write 0x70_0001 9 small).1)
    × ((write 0x70_0001 9 small).0 ≡ false → (write 0x70_0001 9 small).1 ≡ small)
read-write_example = read-write small 0x70_0001 9 small-IsValid

-- An image of one repeated byte.
unfoldable filled : ℕ → List ℕ
filled n = replicate n 0x80

length-filled : (n : ℕ) → length (filled n) ≡ n
unfolding filled
length-filled zero = refl
length-filled (suc n) = ap suc (length-filled n)

get_or-filled : (n i : ℕ) → i < n → get_or (filled n) i 0 ≡ 0x80
unfolding filled
get_or-filled zero i h = absurd (omega arith)
get_or-filled (suc n) zero h = refl
get_or-filled (suc n) (suc i) h = get_or-filled n i (omega arith)

-- A page of ROM, and 64 KiB of save RAM.
abbrev page : List ℕ
page = filled 0x8000

abbrev wide : Cartridge
wide = record { rom = page; rom_mask = length page - 1; sram = some (filled 0x1_0000) }

page_vector : reset_vector page ≡ 0x8080
unfolding reset_vector
page_vector =
    ap (λ (t : ℕ). join t (get_or page 0x7FFD 0)) (get_or-filled 0x8000 0x7FFC (omega arith))
    ∙ ap (join 0x80) (get_or-filled 0x8000 0x7FFD (omega arith))
    ∙ join_lem 0x80 0x80 (omega arith) (omega arith)

page_is_good : bad_rom (length page) ≡ false
unfolding bad_rom is_power_of_two
page_is_good = ap bad_rom (length-filled 0x8000)

sram_is_good : bad_sram (length (filled 0x1_0000)) ≡ false
unfolding bad_sram is_power_of_two
sram_is_good = ap bad_sram (length-filled 0x1_0000)

page_is_long : ltb (length page) 0x8000 ≡ false
page_is_long = ap (λ (t : ℕ). ltb t 0x8000) (length-filled 0x8000)

vector_is_high : ltb (reset_vector page) 0x8000 ≡ false
vector_is_high = ap (λ (t : ℕ). ltb t 0x8000) page_vector

wide_loads : from_rom page (some (filled 0x1_0000)) ≡ loaded wide
unfolding with_sram
wide_loads =
    from_rom-with_sram page (some (filled 0x1_0000)) page_is_good page_is_long vector_is_high
    ∙ if_false (bad_sram (length (filled 0x1_0000))) _ _ sram_is_good

from_rom-IsAccepted_example : IsAccepted page (some (filled 0x1_0000)) wide
from_rom-IsAccepted_example = from_rom-IsAccepted page (some (filled 0x1_0000)) wide wide_loads

write-upper_half_example : saved 0x8000 (write 0x71_0000 9 wide).1 ≡ saved 0x8000 wide
write-upper_half_example = write-upper_half wide 0x71_0000 9 0x8000 refl

from_rom-IsExplained_example : IsExplained page (some (filled 3)) (from_rom page (some (filled 3)))
from_rom-IsExplained_example = from_rom-IsExplained page (some (filled 3))
