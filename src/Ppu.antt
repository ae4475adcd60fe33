-- ===== src/Ppu.antt =====
-- Pure parts of the picture unit, crates/refwork-emu/src/ppu/mod.rs: colour math and the VRAM address
-- remap.
pub mod Colour
pub mod Remap
pub mod Examples
use reference_workload.Base.{
  ℕ, ◌+◌, ◌-◌, ◌/◌, Bool, not, ◌&&◌, if◌then◌else◌, ltb, ◌==◌, u8, u16, ◌<<<◌, ◌>>>◌, bit_and,
  bit_or, min,
}

-- A BGR555 colour as (r5, g5, b5).
unfoldable pub cgram_color_components_fixed : ℕ → ℕ × ℕ × ℕ
cgram_color_components_fixed color =
    (u8 (bit_and color 0x1F), u8 (bit_and (color >>> 5) 0x1F), u8 (bit_and (color >>> 10) 0x1F))

-- A negative `i16` difference stays negative under the shift, and clamps to 0.
unfoldable pub channel : (main sub : ℕ) (add half : Bool) → ℕ
channel main sub add half =
    let v = if add then main + sub else main - sub in
    if not add && ltb main sub then 0 else min 31 (if half then v / 2 else v)

unfoldable pub color_math_op : (main_r main_g main_b sub_r sub_g sub_b : ℕ) (add half : Bool) → ℕ
unfolding channel
color_math_op main_r main_g main_b sub_r sub_g sub_b add half =
    let r5 = channel main_r sub_r add half in
    let g5 = channel main_g sub_g add half in
    let b5 = channel main_b sub_b add half in bit_or (bit_or r5 (u16 (g5 <<< 5))) (u16 (b5 <<< 10))

-- `(addr & high) | ((addr & low) << 3) | ((addr & middle) >> shift)`, the three remaps.
unfoldable pub apply_vram_remap : (addr remap : ℕ) → ℕ
apply_vram_remap addr remap =
    if remap == 0
    then addr
    else if remap == 1
    then bit_or (bit_or (bit_and addr 0xFF00) (bit_and addr 0x001F <<< 3))
        (bit_and addr 0x00E0 >>> 5)
    else if remap == 2
    then bit_or (bit_or (bit_and addr 0xFE00) (bit_and addr 0x003F <<< 3))
        (bit_and addr 0x01C0 >>> 6)
    else bit_or (bit_or (bit_and addr 0xFC00) (bit_and addr 0x007F <<< 3))
        (bit_and addr 0x0380 >>> 7)
