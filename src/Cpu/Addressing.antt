-- ===== src/Cpu/Addressing.antt =====
-- Effective addresses, crates/refwork-emu/src/cpu/addressing.rs.
pub mod Access
pub mod Safe
use reference_workload.Base.{
  ℕ, ◌+◌, Bool, true, false, not, ◌&&◌, ◌||◌, if◌then◌else◌, has, ◌==◌, u8, add16, add32, bit_and,
  bit_or, ◌<<<◌, ◌>>>◌, join, long_address,
}
use reference_workload.Cpu.Registers.{Cpu, m8, x8}
use reference_workload.Cpu.Machine.{Bus, Action, pure, gets, ◌>>=◌, ◌>>◌, read, write, idle}
use reference_workload.Cpu.Stack.{fetch8, fetch16}

pub record Ea : Type 0 where
  pub addr : ℕ  -- u32
  pub wrap_bank0 : Bool

abbrev pub flat : ℕ → Ea
flat addr = record { addr = addr; wrap_bank0 = false }

abbrev pub dp : ℕ → Ea
dp addr = record { addr = addr; wrap_bank0 = true }

unfoldable pub byte_addr : Ea → ℕ → ℕ
byte_addr ea i =
    if ea.wrap_bank0
    then bit_or (bit_and ea.addr 0xFF_0000) (bit_and (add32 ea.addr i) 0x00_FFFF)
    else bit_and (add32 ea.addr i) 0xFF_FFFF

-- `self.e && (self.d & 0x00FF == 0)`: indexing wraps inside the direct page.
abbrev page_wraps : Cpu → Bool
page_wraps r = r.e && (bit_and r.d 0x00FF == 0)

-- The direct-page address of an offset and an index.
unfoldable pub direct_index : Cpu → ℕ → ℕ → ℕ
direct_index r off index =
    if page_wraps r
    then bit_or (bit_and r.d 0xFF00) (bit_and (add16 off index) 0x00FF)
    else add16 (add16 r.d off) index

-- `(flat & 0xFF00) != (eff & 0xFF00)`.
abbrev page_crossed : ℕ → ℕ → Bool
page_crossed a b = not (bit_and a 0xFF00 == bit_and b 0xFF00)

module _ {S : Type 0} ⦃bus : Bus S⦄ where
  unfoldable pub read8 : Ea → Action S ℕ
  read8 ea = read (byte_addr ea 0)

  unfoldable pub write8 : Ea → ℕ → Action S (Unit {0})
  write8 ea v = write (byte_addr ea 0) v

  unfoldable pub read16 : Ea → Action S ℕ
  read16 ea = do lo ← read (byte_addr ea 0); hi ← read (byte_addr ea 1); pure (join lo hi)

  unfoldable pub write16 : Ea → ℕ → Action S (Unit {0})
  write16 ea v = do write (byte_addr ea 0) (u8 v); write (byte_addr ea 1) (u8 (v >>> 8))

  unfoldable pub read_m : Ea → Action S ℕ
  unfolding read8 read16
  read_m ea = do eight ← gets m8; if eight then read8 ea else read16 ea

  unfoldable pub write_m : Ea → ℕ → Action S (Unit {0})
  unfolding write8 write16
  write_m ea v = do eight ← gets m8; if eight then write8 ea (u8 v) else write16 ea v

  -- `if t { bus.idle(); }`
  unfoldable pub idle_if : Bool → Action S (Unit {0})
  idle_if t = if t then idle else pure tt

  -- The direct-page operand byte, with the internal cycle that a nonzero low byte of D costs.
  unfoldable pub direct_offset : Action S ℕ
  unfolding idle_if
  direct_offset = do off ← fetch8; penalty ← gets (λ r. has r.d 0x00FF); idle_if penalty; pure off

  -- `self.d.wrapping_add(off)` after that byte.
  unfoldable pub direct_base : Action S ℕ
  unfolding direct_offset
  direct_base = do off ← direct_offset; gets (λ r. add16 r.d off)

  unfoldable pub ea_direct : Action S Ea
  unfolding direct_base
  ea_direct = do addr ← direct_base; pure (dp addr)

  unfoldable pub ea_direct_indexed : (Cpu → ℕ) → Action S Ea
  unfolding direct_offset
  ea_direct_indexed index = do
    off ← direct_offset
    idle
    addr ← gets (λ r. direct_index r off (index r))
    pure (dp addr)

  unfoldable pub ea_direct_x : Action S Ea
  unfolding ea_direct_indexed
  ea_direct_x = ea_direct_indexed (λ r. r.x)

  unfoldable pub ea_direct_y : Action S Ea
  unfolding ea_direct_indexed
  ea_direct_y = ea_direct_indexed (λ r. r.y)

  unfoldable pub read_dp_ptr16 : ℕ → Action S ℕ
  read_dp_ptr16 base = do lo ← read base; hi ← read (add16 base 1); pure (join lo hi)

  unfoldable pub read_dp_ptr24 : ℕ → Action S ℕ
  read_dp_ptr24 base = do
    lo ← read base
    mid ← read (add16 base 1)
    hi ← read (add16 base 2)
    pure (bit_or (bit_or lo (mid <<< 8)) (hi <<< 16))

  unfoldable pub read_dp_word : Action S ℕ
  unfolding direct_base read_dp_ptr16
  read_dp_word = do base ← direct_base; read_dp_ptr16 base

  -- `((self.dbr as u32) << 16) | ptr as u32`.
  unfoldable pub in_data_bank : ℕ → Action S ℕ
  in_data_bank ptr = gets (λ r. long_address r.dbr ptr)

  unfoldable pub ea_indirect : Action S Ea
  unfolding direct_base read_dp_ptr16 in_data_bank
  ea_indirect = do
    base ← direct_base
    ptr ← read_dp_ptr16 base
    addr ← in_data_bank ptr
    pure (flat addr)

  unfoldable pub ea_indirect_x : Action S Ea
  unfolding direct_offset read_dp_ptr16 in_data_bank
  ea_indirect_x = do
    off ← direct_offset
    idle
    base ← gets (λ r. direct_index r off r.x)
    ptr ← read_dp_ptr16 base
    addr ← in_data_bank ptr
    pure (flat addr)

  -- The sum of a data-bank address and an index, with its page-cross or write penalty.
  unfoldable pub index_flat : ℕ → (Cpu → ℕ) → Bool → Action S Ea
  unfolding idle_if
  index_flat base index is_write = do
    eff ← gets (λ r. bit_and (base + index r) 0xFF_FFFF)
    wide ← gets (λ r. not (x8 r))
    idle_if (wide || is_write || page_crossed base eff)
    pure (flat eff)

  unfoldable pub ea_indirect_y : Bool → Action S Ea
  unfolding direct_base read_dp_ptr16 in_data_bank index_flat
  ea_indirect_y is_write = do
    base ← direct_base
    ptr ← read_dp_ptr16 base
    addr ← in_data_bank ptr
    index_flat addr (λ r. r.y) is_write

  unfoldable pub ea_indirect_long : Action S Ea
  unfolding direct_base read_dp_ptr24
  ea_indirect_long = do
    base ← direct_base
    ptr ← read_dp_ptr24 base
    pure (flat (bit_and ptr 0xFF_FFFF))

  unfoldable pub ea_indirect_long_y : Action S Ea
  unfolding direct_base read_dp_ptr24
  ea_indirect_long_y = do
    base ← direct_base
    ptr ← read_dp_ptr24 base
    eff ← gets (λ r. bit_and (add32 ptr r.y) 0xFF_FFFF)
    pure (flat eff)

  unfoldable pub ea_absolute : Action S Ea
  unfolding in_data_bank
  ea_absolute = do off ← fetch16; addr ← in_data_bank off; pure (flat addr)

  unfoldable pub ea_absolute_indexed : (Cpu → ℕ) → Bool → Action S Ea
  unfolding in_data_bank index_flat
  ea_absolute_indexed index is_write = do
    off ← fetch16
    addr ← in_data_bank off
    index_flat addr index is_write

  unfoldable pub ea_absolute_x : Bool → Action S Ea
  unfolding ea_absolute_indexed
  ea_absolute_x is_write = ea_absolute_indexed (λ r. r.x) is_write

  unfoldable pub ea_absolute_y : Bool → Action S Ea
  unfolding ea_absolute_indexed
  ea_absolute_y is_write = ea_absolute_indexed (λ r. r.y) is_write

  unfoldable pub ea_long : Action S Ea
  ea_long = do off ← fetch16; bank ← fetch8; pure (flat (long_address bank off))

  unfoldable pub ea_long_x : Action S Ea
  ea_long_x = do
    off ← fetch16
    bank ← fetch8
    eff ← gets (λ r. bit_and (add32 (long_address bank off) r.x) 0xFF_FFFF)
    pure (flat eff)

  unfoldable pub ea_stack_rel : Action S Ea
  ea_stack_rel = do off ← fetch8; idle; addr ← gets (λ r. add16 r.s off); pure (dp addr)

  unfoldable pub ea_stack_rel_y : Action S Ea
  unfolding read_dp_ptr16 in_data_bank
  ea_stack_rel_y = do
    off ← fetch8
    idle
    base ← gets (λ r. add16 r.s off)
    ptr ← read_dp_ptr16 base
    addr ← in_data_bank ptr
    idle
    eff ← gets (λ r. bit_and (add32 addr r.y) 0xFF_FFFF)
    pure (flat eff)
