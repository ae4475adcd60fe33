-- ===== src/Cpu/Machine/Ensures.antt =====
-- Total-correctness rules for actions: from well-formed registers and a bus in its invariant, an
-- action gives a result in its range, and keeps both. The bus may refuse all but 24-bit addresses
-- and bytes, so the rules also bound what an action puts on the bus.
use reference_workload.Base.{ℕ, ◌^◌, ◌<◌, Bool, true, false, if◌then◌else◌}
use reference_workload.Cpu.Registers.{Cpu}
use reference_workload.Cpu.Machine.{
  Bus, Action, pure, gets, ◌>>=◌, modify, run, read, write, idle, take_nmi, irq_line,
}

-- What the CPU may rely on, `keep` being the bus invariant: a bus that is only given 24-bit
-- addresses and bytes stays in it, and gives bytes.
pub record IsSafeBus {S : Type 0} (bus : Bus S) (keep : S → Type 0) : Type 0 where
  pub read_safe :
      (addr : ℕ) (b : S)
      → addr < 2 ^ 24
      → keep b
      → ((bus.bus_read addr b).0 < 2 ^ 8) × keep (bus.bus_read addr b).1
  pub write_safe :
      (addr v : ℕ) (b : S) → addr < 2 ^ 24 → v < 2 ^ 8 → keep b → keep (bus.bus_write addr v b)
  pub idle_safe : (b : S) → keep b → keep (bus.bus_idle b)
  pub take_nmi_safe : (b : S) → keep b → keep (bus.bus_take_nmi b).1

abbrev pub IsByte : ℕ → Type 0
IsByte v = v < 2 ^ 8

abbrev pub IsWord : ℕ → Type 0
IsWord v = v < 2 ^ 16

abbrev pub IsLong : ℕ → Type 0
IsLong v = v < 2 ^ 24

abbrev pub IsAny {ℓ} : {A : Type ℓ} → A → Type 0
IsAny a = Unit {0}

-- `R` is what holds of the registers before and after.
pub record Ensures {S A : Type 0} (R : Cpu → Type 0) (keep : S → Type 0) (m : Action S A)
    (Q : A → Type 0) : Type 0 where
  pub at : (r : Cpu) (b : S) → R r → keep b → Q (m r b).0 × R (m r b).1 × keep (m r b).2

module _ {S A : Type 0} {R : Cpu → Type 0} {keep : S → Type 0} {Q : A → Type 0} where
  pub Ensures-pure : (a : A) → Q a → Ensures R keep (pure a) Q
  unfolding pure
  Ensures-pure a q = record { at = λ r b w k. (q, w, k) }

  pub Ensures-gets : (f : Cpu → A) → ((r : Cpu) → R r → Q (f r)) → Ensures R keep (gets f) Q
  unfolding gets
  Ensures-gets f q = record { at = λ r b w k. (q r w, w, k) }

  pub Ensures-if :
      (t : Bool) (m n : Action S A)
      → Ensures R keep m Q
      → Ensures R keep n Q
      → Ensures R keep (if t then m else n) Q
  Ensures-if true m n hm hn = hm
  Ensures-if false m n hm hn = hn

module _ {S A B : Type 0} {R : Cpu → Type 0} {keep : S → Type 0} where
  pub Ensures-bind :
      {Q : A → Type 0} {T : B → Type 0} {m : Action S A} {f : A → Action S B}
      → Ensures R keep m Q
      → ((a : A) → Q a → Ensures R keep (f a) T)
      → Ensures R keep (m >>= f) T
  unfolding ◌>>=◌
  Ensures-bind {m} {f} hm hf = record {
    at =
        λ r b w k. let (q, w', k') = hm.at r b w k in (hf (m r b).0 q).at (m r b).1 (m r b).2 w' k';
  }

module _ {S : Type 0} {R : Cpu → Type 0} {keep : S → Type 0} where
  pub Ensures-modify :
      (f : Cpu → Cpu) → ((r : Cpu) → R r → R (f r)) → Ensures R keep (modify f) IsAny
  unfolding modify
  Ensures-modify f h = record { at = λ r b w k. (tt, h r w, k) }

module _ {S A : Type 0} {R : Cpu → Type 0} {keep : S → Type 0} {Q : A → Type 0} where
  pub Ensures-run :
      (f : Cpu → A × Cpu) → ((r : Cpu) → R r → Q (f r).0 × R (f r).1) → Ensures R keep (run f) Q
  unfolding run
  Ensures-run f h = record { at = λ r b w k. let (q, w') = h r w in (q, w', k) }

module _ {S : Type 0} ⦃bus : Bus S⦄ {R : Cpu → Type 0} {keep : S → Type 0}
    (safe : IsSafeBus bus keep) where
  pub Ensures-read : (addr : ℕ) → IsLong addr → Ensures R keep (read addr) IsByte
  unfolding read
  Ensures-read addr h = record {
    at = λ r b w k. let (v, k') = safe.read_safe addr b h k in (v, w, k');
  }

  pub Ensures-write : (addr v : ℕ) → IsLong addr → IsByte v → Ensures R keep (write addr v) IsAny
  unfolding write
  Ensures-write addr v h q = record { at = λ r b w k. (tt, w, safe.write_safe addr v b h q k) }

  pub Ensures-idle : Ensures R keep idle IsAny
  unfolding idle
  Ensures-idle = record { at = λ r b w k. (tt, w, safe.idle_safe b k) }

  pub Ensures-take_nmi : Ensures R keep take_nmi IsAny
  unfolding take_nmi
  Ensures-take_nmi = record { at = λ r b w k. (tt, w, safe.take_nmi_safe b k) }

  pub Ensures-irq_line : Ensures R keep irq_line IsAny
  unfolding irq_line
  Ensures-irq_line = record { at = λ r b w k. (tt, w, k) }
