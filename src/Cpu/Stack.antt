-- ===== src/Cpu/Stack.antt =====
-- Program fetches and the stack, the helper methods of crates/refwork-emu/src/cpu/mod.rs.
pub mod Safe
pub mod RoundTrip
use reference_workload.Base.{
  ℕ, Bool, if◌then◌else◌, u8, ◌>>>◌, add16, sub16, join, page_one, long_address,
}
use reference_workload.Cpu.Registers.{Cpu}
use reference_workload.Cpu.Machine.{Bus, Action, pure, gets, ◌>>=◌, ◌>>◌, modify, read, write}

-- The stack pointer after a push and before a pull, which stays in page 1 in emulation mode.
unfoldable pub pushed : Cpu → ℕ
pushed r = if r.e then page_one (sub16 r.s 1) else sub16 r.s 1

unfoldable pub pulled : Cpu → ℕ
pulled r = if r.e then page_one (add16 r.s 1) else add16 r.s 1

module _ {S : Type 0} ⦃bus : Bus S⦄ where
  unfoldable pub fetch8 : Action S ℕ
  fetch8 = do
    addr ← gets (λ r. long_address r.pbr r.pc)
    modify (λ r. record r { pc = add16 r.pc 1 })
    read addr

  unfoldable pub fetch16 : Action S ℕ
  fetch16 = do lo ← fetch8; hi ← fetch8; pure (join lo hi)

  unfoldable pub push8 : ℕ → Action S (Unit {0})
  unfolding pushed
  push8 v = do addr ← gets (λ r. r.s); write addr v; modify (λ r. record r { s = pushed r })

  unfoldable pub pull8 : Action S ℕ
  unfolding pulled
  pull8 = do modify (λ r. record r { s = pulled r }); addr ← gets (λ r. r.s); read addr

  unfoldable pub push16 : ℕ → Action S (Unit {0})
  push16 v = do push8 (u8 (v >>> 8)); push8 (u8 v)

  unfoldable pub pull16 : Action S ℕ
  pull16 = do lo ← pull8; hi ← pull8; pure (join lo hi)

  unfoldable pub push8_n : ℕ → Action S (Unit {0})
  push8_n v = do addr ← gets (λ r. r.s); write addr v; modify (λ r. record r { s = sub16 r.s 1 })

  unfoldable pub pull8_n : Action S ℕ
  pull8_n = do modify (λ r. record r { s = add16 r.s 1 }); addr ← gets (λ r. r.s); read addr

  unfoldable pub push16_n : ℕ → Action S (Unit {0})
  push16_n v = do push8_n (u8 (v >>> 8)); push8_n (u8 v)

  unfoldable pub pull16_n : Action S ℕ
  pull16_n = do lo ← pull8_n; hi ← pull8_n; pure (join lo hi)
