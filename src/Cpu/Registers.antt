-- ===== src/Cpu/Registers.antt =====
-- `Cpu` of crates/refwork-emu/src/cpu/mod.rs: the registers, and the methods that touch only them.
-- A method on `&mut self` returns the new record.
pub mod WellFormed
pub mod Status
use reference_workload.Base.{
  ℕ, Bool, true, false, ◌==◌, if◌then◌else◌, has, u8, not8, bit_and, bit_or, page_one,
}
use reference_workload.Cpu.Flags

pub record Cpu : Type 0 where
  pub a : ℕ  -- u16
  pub x : ℕ  -- u16
  pub y : ℕ  -- u16
  pub s : ℕ  -- u16
  pub d : ℕ  -- u16
  pub dbr : ℕ  -- u8
  pub pbr : ℕ  -- u8
  pub pc : ℕ  -- u16
  pub p : ℕ  -- u8
  pub e : Bool
  pub waiting : Bool
  pub stopped : Bool

unfoldable pub new : Cpu
new = record {
  a = 0;
  x = 0;
  y = 0;
  s = 0x01FF;
  d = 0;
  dbr = 0;
  pbr = 0;
  pc = 0;
  p = bit_or (bit_or Flags.m Flags.x) Flags.i;
  e = true;
  waiting = false;
  stopped = false;
}

abbrev pub m8 : Cpu → Bool
m8 r = has r.p Flags.m

abbrev pub x8 : Cpu → Bool
x8 r = has r.p Flags.x

-- The new P of `set_flag`.
unfoldable pub with_flag : ℕ → Bool → ℕ → ℕ
with_flag mask on p = if on then bit_or p mask else bit_and p (not8 mask)

abbrev pub set_flag : ℕ → Bool → Cpu → Cpu
set_flag mask on r = record r { p = with_flag mask on r.p }

abbrev pub set_nz8 : ℕ → Cpu → Cpu
set_nz8 v r = set_flag Flags.n (has v 0x80) (set_flag Flags.z (v == 0) r)

abbrev pub set_nz16 : ℕ → Cpu → Cpu
set_nz16 v r = set_flag Flags.n (has v 0x8000) (set_flag Flags.z (v == 0) r)

unfoldable pub set_nz_m : ℕ → Cpu → Cpu
set_nz_m v r = if m8 r then set_nz8 (u8 v) r else set_nz16 v r

-- The three steps of `normalize_widths`.
unfoldable pub force_narrow : Cpu → Cpu
force_narrow r = if r.e then record r { p = bit_or r.p (bit_or Flags.m Flags.x) } else r

unfoldable pub clip_indexes : Cpu → Cpu
clip_indexes r = if x8 r then record r { x = bit_and r.x 0x00FF; y = bit_and r.y 0x00FF } else r

unfoldable pub force_page_one : Cpu → Cpu
force_page_one r = if r.e then record r { s = page_one r.s } else r

unfoldable pub normalize_widths : Cpu → Cpu
unfolding force_narrow clip_indexes force_page_one
normalize_widths r = force_page_one (clip_indexes (force_narrow r))
