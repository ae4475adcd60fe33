-- ===== src/Cpu/Machine.antt =====
-- The `Bus` trait (crates/refwork-emu/src/bus.rs) as an interface over a bus state, and methods on
-- `(&mut self, bus: &mut B)` as actions on the registers and the bus.
pub mod Ensures
pub mod Ram
use reference_workload.Base.{ℕ, Bool}
use reference_workload.Fault.{Fault}
use reference_workload.Cpu.Registers.{Cpu}

pub record Bus (S : Type 0) : Type 0 where
  pub bus_read : ℕ → S → ℕ × S
  pub bus_write : ℕ → ℕ → S → S
  pub bus_idle : S → S
  pub bus_take_nmi : S → Bool × S
  pub bus_irq_line : S → Bool
  pub bus_fault : Fault → S → S

-- An action: the result, the registers and the bus afterwards.
abbrev pub Action : Type 0 → Type 0 → Type 0
Action S A = Cpu → S → A × Cpu × S

module _ {S A : Type 0} where
  unfoldable pub pure : A → Action S A
  pure a r b = (a, r, b)

  -- A value read off the registers.
  unfoldable pub gets : (Cpu → A) → Action S A
  gets f r b = (f r, r, b)

module _ {S A B : Type 0} where
  infixl 5 ◌>>=◌
  unfoldable pub ◌>>=◌ : Action S A → (A → Action S B) → Action S B
  unfolding pure gets
  ◌>>=◌ m f r b = let (a, r', b') = m r b in f a r' b'

module _ {S B : Type 0} where
  infixl 5 ◌>>◌
  abbrev pub ◌>>◌ : Action S (Unit {0}) → Action S B → Action S B
  m >> k = m >>= λ _. k

-- A method on `&mut self` alone.
unfoldable pub modify : {S : Type 0} → (Cpu → Cpu) → Action S (Unit {0})
modify f r b = (tt, f r, b)

-- A method on `&mut self` alone that returns a value.
unfoldable pub run : {S A : Type 0} → (Cpu → A × Cpu) → Action S A
run f r b = let (a, r') = f r in (a, r', b)

module _ {S : Type 0} ⦃bus : Bus S⦄ where
  unfoldable pub read : ℕ → Action S ℕ
  read addr r b = let (v, b') = bus.bus_read addr b in (v, r, b')

  unfoldable pub write : ℕ → ℕ → Action S (Unit {0})
  write addr v r b = (tt, r, bus.bus_write addr v b)

  unfoldable pub idle : Action S (Unit {0})
  idle r b = (tt, r, bus.bus_idle b)

  unfoldable pub take_nmi : Action S Bool
  take_nmi r b = let (v, b') = bus.bus_take_nmi b in (v, r, b')

  unfoldable pub irq_line : Action S Bool
  irq_line r b = (bus.bus_irq_line b, r, b)
