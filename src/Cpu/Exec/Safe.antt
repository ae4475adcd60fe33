-- ===== src/Cpu/Exec/Safe.antt =====
-- Every arm of `execute` keeps the register invariant, and reaches 24-bit addresses only.
pub mod Operands
pub mod Arithmetic
pub mod Bitwise
pub mod Loads
pub mod Counting
pub mod Control
pub mod Transfers
pub mod Moves
pub mod Execute
