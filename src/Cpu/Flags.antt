-- ===== src/Cpu/Flags.antt =====
-- The status flag bits of the P register, `flags` in crates/refwork-emu/src/cpu/mod.rs.
use reference_workload.Base.{ℕ}

-- Carry.
abbrev pub c : ℕ
c = 0x01

-- Zero.
abbrev pub z : ℕ
z = 0x02

-- IRQ disable.
abbrev pub i : ℕ
i = 0x04

-- Decimal mode.
abbrev pub d : ℕ
d = 0x08

-- Index width; the break flag of a copy pushed in emulation mode.
abbrev pub x : ℕ
x = 0x10

-- Accumulator width.
abbrev pub m : ℕ
m = 0x20

-- Overflow.
abbrev pub v : ℕ
v = 0x40

-- Negative.
abbrev pub n : ℕ
n = 0x80
