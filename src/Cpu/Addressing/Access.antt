-- ===== src/Cpu/Addressing/Access.antt =====
-- Operand accesses keep the register invariant, and reach 24-bit addresses only.
use reference_workload.Base.{ℕ, ◌^◌, ◌<◌, Bool, arith, add32, bit_and}
use reference_workload.Base.Bits.{bit_or-lt, bit_and-le, bit_and-ones}
use reference_workload.Cpu.Registers.{Cpu, m8}
use reference_workload.Cpu.Registers.WellFormed.{IsWf}
use reference_workload.Cpu.Machine.{Bus, Action, gets, read}
use reference_workload.Cpu.Machine.Ensures.{
  IsSafeBus, IsByte, IsWord, IsLong, IsAny, Ensures, Ensures-pure, Ensures-gets, Ensures-bind,
  Ensures-if, Ensures-read, Ensures-write, Ensures-idle,
}
use reference_workload.Cpu.Stack.Safe.{join-IsWord}
use reference_workload.Cpu.Addressing.{
  Ea, byte_addr, read8, write8, read16, write16, read_m, write_m, idle_if,
}

pub mask24_lem : (a : ℕ) → bit_and a 0xFF_FFFF < 2 ^ 24
mask24_lem a = omega (arith, bit_and-ones 24 a)

pub byte_addr-IsLong : (ea : Ea) (i : ℕ) → IsLong ea.addr → IsLong (byte_addr ea i)
unfolding byte_addr
byte_addr-IsLong ea i h = ground (
  arith,
  mask24_lem (add32 ea.addr i),
  bit_or-lt 24 (bit_and ea.addr 0xFF_0000) (bit_and (add32 ea.addr i) 0x00_FFFF),
  bit_and-le ea.addr 0xFF_0000,
  bit_and-ones 16 (add32 ea.addr i),
)

abbrev pub IsEa : Ea → Type 0
IsEa ea = IsLong ea.addr

module _ {S : Type 0} ⦃bus : Bus S⦄ {keep : S → Type 0} (safe : IsSafeBus bus keep) where
  read_at : (ea : Ea) (i : ℕ) → IsEa ea → Ensures IsWf keep (read (byte_addr ea i)) IsByte
  read_at ea i h = Ensures-read safe _ (byte_addr-IsLong ea i h)

  pub read8-Ensures : (ea : Ea) → IsEa ea → Ensures IsWf keep (read8 ea) IsByte
  unfolding read8
  read8-Ensures ea h = read_at ea 0 h

  pub read16-Ensures : (ea : Ea) → IsEa ea → Ensures IsWf keep (read16 ea) IsWord
  unfolding read16
  read16-Ensures ea h =
      Ensures-bind (read_at ea 0 h)
        λ lo p. Ensures-bind (read_at ea 1 h) λ hi q. Ensures-pure _ (join-IsWord lo hi p q)

  pub write8-Ensures :
      (ea : Ea) (v : ℕ) → IsEa ea → IsByte v → Ensures IsWf keep (write8 ea v) IsAny
  unfolding write8
  write8-Ensures ea v h k = Ensures-write safe _ v (byte_addr-IsLong ea 0 h) k

  pub write16-Ensures : (ea : Ea) (v : ℕ) → IsEa ea → Ensures IsWf keep (write16 ea v) IsAny
  unfolding write16
  write16-Ensures ea v h =
      Ensures-bind (Ensures-write safe _ _ (byte_addr-IsLong ea 0 h) (omega arith))
        λ _ _. Ensures-write safe _ _ (byte_addr-IsLong ea 1 h) (omega arith)

  pub byte-IsWord : {m : Action S ℕ} → Ensures IsWf keep m IsByte → Ensures IsWf keep m IsWord
  byte-IsWord h = record { at = λ r b w k. let (q, w', k') = h.at r b w k in (omega arith, w', k') }

  pub gets-IsAny : {A : Type 0} (f : Cpu → A) → Ensures IsWf keep (gets f) IsAny
  gets-IsAny f = Ensures-gets f (λ _ _. tt)

  pub read_m-Ensures : (ea : Ea) → IsEa ea → Ensures IsWf keep (read_m ea) IsWord
  unfolding read_m
  read_m-Ensures ea h =
      Ensures-bind (gets-IsAny m8)
        λ eight _. Ensures-if eight _ _ (byte-IsWord (read8-Ensures ea h)) (read16-Ensures ea h)

  pub write_m-Ensures : (ea : Ea) (v : ℕ) → IsEa ea → Ensures IsWf keep (write_m ea v) IsAny
  unfolding write_m
  write_m-Ensures ea v h =
      Ensures-bind (gets-IsAny m8) λ eight _.
        Ensures-if eight _ _ (write8-Ensures ea _ h (omega arith)) (write16-Ensures ea v h)

  pub idle_if-Ensures : (t : Bool) → Ensures IsWf keep (idle_if t) IsAny
  unfolding idle_if
  idle_if-Ensures t = Ensures-if t _ _ (Ensures-idle safe) (Ensures-pure tt tt)
