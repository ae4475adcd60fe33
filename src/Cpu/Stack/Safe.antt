-- ===== src/Cpu/Stack/Safe.antt =====
-- Fetches, pushes and pulls keep the register invariants, and access 24-bit addresses only.
use reference_workload.Base.{
  ℕ, arith, join, join_lem, page_one_lem, long_address, long_address_lem, add16, sub16,
}
use reference_workload.Cpu.Registers.{Cpu}
use reference_workload.Cpu.Registers.WellFormed.{IsFit, IsWf, set_s-IsWf, set_pc-IsWf}
use reference_workload.Cpu.Machine.{Bus}
use reference_workload.Cpu.Machine.Ensures.{
  IsSafeBus, IsByte, IsWord, IsLong, IsAny, Ensures, Ensures-pure, Ensures-gets, Ensures-bind,
  Ensures-modify, Ensures-read, Ensures-write,
}
use reference_workload.Cpu.Stack.{
  pushed, pulled, fetch8, fetch16, push8, pull8, push16, pull16, push8_n, pull8_n, push16_n,
  pull16_n,
}

-- An invariant that bounds the registers, and that writes to S and PC keep.
pub record IsLoose (R : Cpu → Type 0) : Type 0 where
  pub bounds : (r : Cpu) → R r → IsFit r
  pub set_s : (r : Cpu) (v : ℕ) → R r → IsWord v → R (record r { s = v })
  pub set_pc : (r : Cpu) (v : ℕ) → R r → IsWord v → R (record r { pc = v })

pub IsFit-IsLoose : IsLoose IsFit
IsFit-IsLoose = record {
  bounds = λ r f. f;
  set_s = λ r v f h. omega arith;
  set_pc = λ r v f h. omega arith;
}

pub IsWf-IsLoose : IsLoose IsWf
IsWf-IsLoose = record {
  bounds = λ r w. w.fits;
  set_s = λ r v w h. set_s-IsWf r w v h;
  set_pc = λ r v w h. set_pc-IsWf r w v h;
}

pub join-IsWord : (lo hi : ℕ) → IsByte lo → IsByte hi → IsWord (join lo hi)
join-IsWord lo hi p q = omega (arith, join_lem lo hi p q)

pub long_address-IsLong : (bank off : ℕ) → IsByte bank → IsWord off → IsLong (long_address bank off)
long_address-IsLong bank off p q = omega (arith, long_address_lem bank off q)

pushed-IsWord : (r : Cpu) → IsWord (pushed r)
unfolding pushed
pushed-IsWord r = ground (arith, page_one_lem (sub16 r.s 1))

pulled-IsWord : (r : Cpu) → IsWord (pulled r)
unfolding pulled
pulled-IsWord r = ground (arith, page_one_lem (add16 r.s 1))

module _ {S : Type 0} ⦃bus : Bus S⦄ {R : Cpu → Type 0} {keep : S → Type 0} (loose : IsLoose R)
    (safe : IsSafeBus bus keep) where
  pub fetch8-Ensures : Ensures R keep fetch8 IsByte
  unfolding fetch8
  fetch8-Ensures =
      Ensures-bind
        (Ensures-gets _
          (λ r w. let f = loose.bounds r w in long_address-IsLong r.pbr r.pc f.pbr_fits f.pc_fits))
        λ addr h.
          Ensures-bind (Ensures-modify _ (λ r w. loose.set_pc r _ w (omega arith)))
            λ _ _. Ensures-read safe addr h

  pub fetch16-Ensures : Ensures R keep fetch16 IsWord
  unfolding fetch16
  fetch16-Ensures = search (Ensures-bind, fetch8-Ensures, Ensures-pure, join-IsWord)

  pub push8-Ensures : (v : ℕ) → IsByte v → Ensures R keep (push8 v) IsAny
  unfolding push8
  push8-Ensures v h =
      Ensures-bind {Q = IsWord} (Ensures-gets _ (λ r w. (loose.bounds r w).s_fits)) λ addr p.
        Ensures-bind (Ensures-write safe addr v (omega arith) h)
          λ _ _. Ensures-modify _ (λ r w. loose.set_s r _ w (pushed-IsWord r))

  pub pull8-Ensures : Ensures R keep pull8 IsByte
  unfolding pull8
  pull8-Ensures =
      Ensures-bind (Ensures-modify _ (λ r w. loose.set_s r _ w (pulled-IsWord r))) λ _ _.
        Ensures-bind {Q = IsWord} (Ensures-gets _ (λ r w. (loose.bounds r w).s_fits))
          λ addr p. Ensures-read safe addr (omega arith)

  pub push16-Ensures : (v : ℕ) → Ensures R keep (push16 v) IsAny
  unfolding push16
  push16-Ensures v =
      Ensures-bind (push8-Ensures _ (omega arith)) λ _ _. push8-Ensures _ (omega arith)

  pub pull16-Ensures : Ensures R keep pull16 IsWord
  unfolding pull16
  pull16-Ensures = search (Ensures-bind, pull8-Ensures, Ensures-pure, join-IsWord)

  pub push8_n-Ensures : (v : ℕ) → IsByte v → Ensures R keep (push8_n v) IsAny
  unfolding push8_n
  push8_n-Ensures v h =
      Ensures-bind {Q = IsWord} (Ensures-gets _ (λ r w. (loose.bounds r w).s_fits)) λ addr p.
        Ensures-bind (Ensures-write safe addr v (omega arith) h)
          λ _ _. Ensures-modify _ (λ r w. loose.set_s r _ w (omega arith))

  pub pull8_n-Ensures : Ensures R keep pull8_n IsByte
  unfolding pull8_n
  pull8_n-Ensures = Ensures-bind (Ensures-modify _ (λ r w. loose.set_s r _ w (omega arith))) λ _ _.
      Ensures-bind {Q = IsWord} (Ensures-gets _ (λ r w. (loose.bounds r w).s_fits))
        λ addr p. Ensures-read safe addr (omega arith)

  pub push16_n-Ensures : (v : ℕ) → Ensures R keep (push16_n v) IsAny
  unfolding push16_n
  push16_n-Ensures v =
      Ensures-bind (push8_n-Ensures _ (omega arith)) λ _ _. push8_n-Ensures _ (omega arith)

  pub pull16_n-Ensures : Ensures R keep pull16_n IsWord
  unfolding pull16_n
  pull16_n-Ensures = search (Ensures-bind, pull8_n-Ensures, Ensures-pure, join-IsWord)
