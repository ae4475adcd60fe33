-- ===== src/Cpu/Exec/Operands.antt =====
-- Operands and the shapes of the arms of `execute`, crates/refwork-emu/src/cpu/exec.rs.
use reference_workload.Base.{ℕ, if◌then◌else◌, ◌==◌, u8, not8, not16, bit_and, bit_or}
use reference_workload.Cpu.Flags
use reference_workload.Cpu.Registers.{Cpu, m8, x8, set_flag}
use reference_workload.Cpu.Machine.{Bus, Action, gets, ◌>>=◌, ◌>>◌, modify, run, idle}
use reference_workload.Cpu.Alu.{op_compare}
use reference_workload.Cpu.Stack.{fetch8, fetch16}
use reference_workload.Cpu.Addressing.{Ea, read8, write8, read16, write16, read_m, write_m}

-- An opcode and what `execute` does for it.
abbrev pub Arm : Type 0 → Type 0
Arm S = ℕ × Action S (Unit {0})

-- `self.op_compare(a, v, self.m8())`, and with an index register.
abbrev pub compare_a : ℕ → Cpu → Cpu
compare_a v r = op_compare r.a v (m8 r) r

abbrev pub compare_x : ℕ → Cpu → Cpu
compare_x v r = op_compare r.x v (x8 r) r

abbrev pub compare_y : ℕ → Cpu → Cpu
compare_y v r = op_compare r.y v (x8 r) r

-- The flag and the value that TRB and TSB make of an operand.
unfoldable pub trb : ℕ → Cpu → ℕ × Cpu
trb m r =
    if m8 r
    then (bit_and (u8 m) (not8 (u8 r.a)), set_flag Flags.z (bit_and (u8 r.a) (u8 m) == 0) r)
    else (bit_and m (not16 r.a), set_flag Flags.z (bit_and r.a m == 0) r)

unfoldable pub tsb : ℕ → Cpu → ℕ × Cpu
tsb m r =
    if m8 r
    then (bit_or (u8 m) (u8 r.a), set_flag Flags.z (bit_and (u8 r.a) (u8 m) == 0) r)
    else (bit_or m r.a, set_flag Flags.z (bit_and r.a m == 0) r)

module _ {S : Type 0} ⦃bus : Bus S⦄ where
  unfoldable pub imm_m : Action S ℕ
  imm_m = do eight ← gets m8; if eight then fetch8 else fetch16

  unfoldable pub imm_x : Action S ℕ
  imm_x = do eight ← gets x8; if eight then fetch8 else fetch16

  unfoldable pub read_x : Ea → Action S ℕ
  unfolding read8 read16
  read_x ea = do eight ← gets x8; if eight then read8 ea else read16 ea

  unfoldable pub write_x : Ea → ℕ → Action S (Unit {0})
  unfolding write8 write16
  write_x ea v = do eight ← gets x8; if eight then write8 ea (u8 v) else write16 ea v

  -- `let v = self.imm_m(bus); self.op(v);`, and at the index width.
  unfoldable pub use_imm_m : (ℕ → Cpu → Cpu) → Action S (Unit {0})
  unfolding imm_m
  use_imm_m op = do v ← imm_m; modify (op v)

  unfoldable pub use_imm_x : (ℕ → Cpu → Cpu) → Action S (Unit {0})
  unfolding imm_x
  use_imm_x op = do v ← imm_x; modify (op v)

  -- `let ea = …; let v = self.read_m(bus, ea); self.op(v);`, and at the index width.
  unfoldable pub use_m : Action S Ea → (ℕ → Cpu → Cpu) → Action S (Unit {0})
  use_m resolve op = do ea ← resolve; v ← read_m ea; modify (op v)

  unfoldable pub use_x : Action S Ea → (ℕ → Cpu → Cpu) → Action S (Unit {0})
  unfolding read_x
  use_x resolve op = do ea ← resolve; v ← read_x ea; modify (op v)

  -- `let ea = …; let v = self.reg; self.write_m(bus, ea, v);`, and at the index width.
  unfoldable pub store_m : Action S Ea → (Cpu → ℕ) → Action S (Unit {0})
  store_m resolve reg = do ea ← resolve; v ← gets reg; write_m ea v

  unfoldable pub store_x : Action S Ea → (Cpu → ℕ) → Action S (Unit {0})
  unfolding write_x
  store_x resolve reg = do ea ← resolve; v ← gets reg; write_x ea v

  unfoldable pub rmw_m : Ea → (ℕ → Cpu → ℕ × Cpu) → Action S (Unit {0})
  rmw_m ea f = do v ← read_m ea; idle; t ← run (f v); write_m ea t

  -- `let ea = …; self.rmw_m(bus, ea, f);`
  unfoldable pub modify_m : Action S Ea → (ℕ → Cpu → ℕ × Cpu) → Action S (Unit {0})
  unfolding rmw_m
  modify_m resolve f = do ea ← resolve; rmw_m ea f

  unfoldable pub op_trb : Ea → Action S (Unit {0})
  unfolding rmw_m trb
  op_trb ea = rmw_m ea trb

  unfoldable pub op_tsb : Ea → Action S (Unit {0})
  unfolding rmw_m tsb
  op_tsb ea = rmw_m ea tsb
