-- ===== src/Cart.antt =====
-- The cartridge, crates/refwork-emu/src/cart.rs: ROM and save RAM behind 24-bit addresses.
pub mod Access
pub mod Sizes
pub mod Refusal
pub mod Loading
pub mod Examples
use reference_workload.Base.{
  ℕ, ◌+◌, ◌-◌, ◌*◌, Bool, true, false, ◌&&◌, ◌||◌, not, if◌then◌else◌, ◌==◌, ltb, leb, nonzero, u8,
  u16, bit_and, ◌>>>◌, join, List, length, get_elem?, get_or, set, Option, none, some,
}

pub record Cartridge : Type 0 where
  pub rom : List ℕ
  pub rom_mask : ℕ
  pub sram : Option (List ℕ)

-- `Result<Cartridge, CoreError>`, with the errors that `from_rom` gives.
pub data Loaded : Type 0 where
  loaded : Cartridge → Loaded
  bad_rom_size bad_reset_vector bad_sram_size : ℕ → Loaded

-- What a read gives; `panicked` is an index out of bounds.
pub data Reading : Type 0 where
  open_bus panicked : Reading
  byte : ℕ → Reading

unfoldable pub is_power_of_two : ℕ → Bool
is_power_of_two n = nonzero n && (bit_and n (n - 1) == 0)

unfoldable pub bad_rom : ℕ → Bool
bad_rom len = (len == 0) || (nonzero (bit_and len 0x7FFF) || not (is_power_of_two len))

unfoldable pub bad_sram : ℕ → Bool
bad_sram len =
    (len == 0) || (not (is_power_of_two len) || not (leb 2048 len && leb len (512 * 1024)))

-- The size check of the save RAM and the construction, the last steps of `from_rom`.
unfoldable pub with_sram : List ℕ → Option (List ℕ) → Loaded
unfolding bad_sram
with_sram rom none = loaded (record { rom = rom; rom_mask = length rom - 1; sram = none })
with_sram rom (some s) =
    if bad_sram (length s)
    then bad_sram_size (length s)
    else loaded (record { rom = rom; rom_mask = length rom - 1; sram = some s })

unfoldable pub reset_vector : List ℕ → ℕ
reset_vector rom = join (get_or rom 0x7FFC 0) (get_or rom 0x7FFD 0)

unfoldable pub from_rom : List ℕ → Option (List ℕ) → Loaded
unfolding bad_rom with_sram reset_vector
from_rom rom sram =
    if bad_rom (length rom)
    then bad_rom_size (length rom)
    else if ltb (length rom) 0x8000
    then bad_rom_size (length rom)
    else if ltb (reset_vector rom) 0x8000
    then bad_reset_vector (reset_vector rom)
    else with_sram rom sram

abbrev pub bank_of : ℕ → ℕ
bank_of addr = u8 (bit_and (addr >>> 16) 0xFF)

abbrev pub offset_of : ℕ → ℕ
offset_of addr = u16 (bit_and addr 0xFFFF)

-- `0x00..=0x7D | 0x80..=0xFF if off >= 0x8000`.
unfoldable pub in_rom : ℕ → Bool
in_rom addr = (leb (bank_of addr) 0x7D || leb 0x80 (bank_of addr)) && leb 0x8000 (offset_of addr)

-- `0x70..=0x7D | 0xF0..=0xFD if off < 0x8000`.
unfoldable pub in_sram : ℕ → Bool
in_sram addr =
    ((leb 0x70 (bank_of addr) && leb (bank_of addr) 0x7D)
      || (leb 0xF0 (bank_of addr) && leb (bank_of addr) 0xFD))
    && ltb (offset_of addr) 0x8000

-- An index into a slice.
unfoldable pub index : List ℕ → ℕ → Reading
index bytes i = elim (get_elem? bytes i) [ none ↦ panicked | some v ↦ byte v ]

unfoldable pub rom_offset : Cartridge → ℕ → ℕ
rom_offset self addr =
    bit_and (bit_and (bank_of addr) 0x7F * 0x8000 + (offset_of addr - 0x8000)) self.rom_mask

unfoldable pub sram_offset : List ℕ → ℕ → ℕ
sram_offset sram addr = bit_and addr (length sram - 1)

unfoldable pub read_sram : Option (List ℕ) → ℕ → Reading
unfolding index sram_offset
read_sram none addr = open_bus
read_sram (some s) addr = index s (sram_offset s addr)

unfoldable pub read : Cartridge → ℕ → Reading
unfolding in_rom in_sram rom_offset read_sram
read self addr =
    if in_rom addr
    then index self.rom (rom_offset self addr)
    else if in_sram addr
    then read_sram self.sram addr
    else open_bus

-- The save RAM after a write, and whether the address was writable.
unfoldable pub write_sram : Option (List ℕ) → ℕ → ℕ → Bool × Option (List ℕ)
write_sram none addr value = (false, none)
write_sram (some s) addr value = (true, some (set s (sram_offset s addr) value))

unfoldable pub write : ℕ → ℕ → Cartridge → Bool × Cartridge
unfolding write_sram
write addr value self =
    if in_sram addr
    then (let (ok, s) = write_sram self.sram addr value in (ok, record self { sram = s }))
    else (false, self)
