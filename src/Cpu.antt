-- ===== src/Cpu.antt =====
-- The 16-bit CPU core, crates/refwork-emu/src/cpu.
pub mod Flags
pub mod Registers
pub mod Machine
pub mod Stack
pub mod Alu
pub mod Logic
pub mod Interrupts
pub mod Addressing
pub mod Exec
pub mod Step
pub mod Examples
