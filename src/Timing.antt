-- ===== src/Timing.antt =====
-- Frame and scanline constants and the cost of a bus access, crates/refwork-emu/src/timing.rs.
use reference_workload.Base.{
  ℕ, ◌*◌, ◌≤◌, Bool, ◌&&◌, if◌then◌else◌, leb, u8, u16, ◌>>>◌, bit_and, arith,
}

abbrev pub lines_per_frame : ℕ
lines_per_frame = 262

abbrev pub mclk_per_line : ℕ
mclk_per_line = 1364

abbrev pub mclk_per_frame : ℕ
mclk_per_frame = lines_per_frame * mclk_per_line

abbrev pub first_visible_line : ℕ
first_visible_line = 1

abbrev pub vblank_start_line : ℕ
vblank_start_line = 225

abbrev pub mclk_per_internal_cycle : ℕ
mclk_per_internal_cycle = 6

abbrev pub hblank_start_dot : ℕ
hblank_start_dot = 274

-- `lo..=hi`.
abbrev pub within : ℕ → ℕ → ℕ → Bool
within lo hi n = leb lo n && leb n hi

-- The offsets below $6000, alike in banks $00-$3F and $80-$BF, and 8 from there on.
unfoldable pub io_speed : ℕ → ℕ
io_speed off =
    if within 0x0000 0x1FFF off
    then 8
    else if within 0x2000 0x3FFF off
    then 6
    else if within 0x4000 0x41FF off
    then 12
    else if within 0x4200 0x5FFF off
    then 6
    else 8

unfoldable pub rom_speed : Bool → ℕ
rom_speed fast_rom = if fast_rom then 6 else 8

unfoldable pub mem_speed : ℕ → Bool → ℕ
unfolding io_speed rom_speed
mem_speed addr fast_rom =
    let bank = u8 (addr >>> 16) in
    let off = u16 (bit_and addr 0xFFFF) in
    if within 0x00 0x3F bank
    then io_speed off
    else if within 0x40 0x7F bank
    then 8
    else if within 0x80 0xBF bank
    then (if leb 0x8000 off then rom_speed fast_rom else io_speed off)
    else rom_speed fast_rom

io_speed_bounds : (off : ℕ) → (6 ≤ io_speed off) × (io_speed off ≤ 12)
unfolding io_speed
io_speed_bounds off = ground arith

rom_speed_bounds : (fast_rom : Bool) → (6 ≤ rom_speed fast_rom) × (rom_speed fast_rom ≤ 12)
unfolding rom_speed
rom_speed_bounds fast_rom = ground arith

-- A bus access costs from 6 to 12 master clocks.
pub mem_speed_bounds :
    (addr : ℕ) (fast_rom : Bool) → (6 ≤ mem_speed addr fast_rom) × (mem_speed addr fast_rom ≤ 12)
unfolding mem_speed
mem_speed_bounds addr fast_rom =
    ground (arith, io_speed_bounds (u16 (bit_and addr 0xFFFF)), rom_speed_bounds fast_rom)
