-- ===== src/Fault.antt =====
-- The anomalies that halt the core and the per-frame flags, crates/refwork-emu/src/fault.rs.
use reference_workload.Base.{ℕ, Bool, ◌==◌, bit_and, bit_or}

pub data Fault : Type 0 where
  cpu_stopped : ℕ → Fault
  unmapped_write : ℕ → ℕ → Fault
  unimplemented_bg_mode : ℕ → Fault
  unimplemented_ppu_feature : ℕ → ℕ → Fault
  hdma_dma_conflict : ℕ → Fault
  cart_access : ℕ → Fault
  apu_stopped : ℕ → Fault
  apu_test_trigger : ℕ → ℕ → Fault

-- `FrameFlags` is its one field, a u32.
abbrev pub FrameFlags : Type 0
FrameFlags = ℕ

abbrev pub faulted : FrameFlags
faulted = 1

unfoldable pub contains : FrameFlags → FrameFlags → Bool
contains self other = bit_and self other == other

unfoldable pub insert : FrameFlags → FrameFlags → FrameFlags
insert self other = bit_or self other
