-- ===== src/Apu.antt =====
-- The audio unit, crates/refwork-emu/src/apu.
pub mod Timers
