-- ===== src/Cpu/Step/Progress.antt =====
-- Every step of a processor that is not stopped moves the clock of its bus.
use reference_workload.Base.{
  ℕ, ◌+◌, ◌^◌, ◌<◌, ◌≡◌, sym, ap, Bool, true, false, if◌then◌else◌, if_true, if_false, Bool-cases,
  inl, inr, ◌&&◌, add16, arith, ◌∙◌,
}
use mathlib.Core.Path.{subst}
use reference_workload.Cpu.Registers.{Cpu, force_page_one}
use reference_workload.Cpu.Registers.WellFormed.{IsWf, force_page_one-IsWf, set_pc-IsWf}
use reference_workload.Cpu.Machine.{Bus, Action, ◌>>=◌, gets, modify, read, idle}
use reference_workload.Cpu.Machine.Ensures.{
  IsSafeBus, IsAny, IsByte, IsLong, Ensures, Ensures-pure, Ensures-gets, Ensures-bind, Ensures-if,
  Ensures-modify, Ensures-idle, Ensures-take_nmi, Ensures-irq_line,
}
use reference_workload.Cpu.Stack.{fetch8}
use reference_workload.Cpu.Stack.Safe.{long_address-IsLong}
use reference_workload.Cpu.Interrupts.{IntKind, nmi, irq, service_interrupt}
use reference_workload.Cpu.Interrupts.Safe.{
  enter_emulated-Ensures, enter_native-Ensures, service_interrupt-Ensures,
}
use reference_workload.Cpu.Exec.Safe.Execute.{execute-Ensures}
use reference_workload.Cpu.Step.{
  instruction, line_boundary, boundary, release, wake_nmi, line_wait, wait_step, step_inner, step,
}
use reference_workload.Cpu.Step.Safe.{IsSettled, wake-IsWf, force_page_one-IsSettled}

-- A safe bus with a clock: `keep n` says that the clock is at `n` or later, and a read or an idle
-- cycle takes `d` at least.
pub record IsTimedBus {S : Type 0} (bus : Bus S) (keep : ℕ → S → Type 0) (d : ℕ) : Type 0 where
  pub safe : (n : ℕ) → IsSafeBus bus (keep n)
  pub read_costs :
      (n addr : ℕ) (b : S) → addr < 2 ^ 24 → keep n b → keep (n + d) (bus.bus_read addr b).1
  pub idle_costs : (n : ℕ) (b : S) → keep n b → keep (n + d) (bus.bus_idle b)

-- As `Ensures`, and the clock moves on by `d`.
record Advances {S A : Type 0} (keep : ℕ → S → Type 0) (d : ℕ) (m : Action S A) (Q : A → Type 0)
    : Type 0 where
  at :
      (n : ℕ) (r : Cpu) (b : S)
      → IsWf r
      → keep n b
      → Q (m r b).0 × IsWf (m r b).1 × keep (n + d) (m r b).2

module _ {S A : Type 0} {keep : ℕ → S → Type 0} {d : ℕ} {Q : A → Type 0} where
  Advances-if :
      (t : Bool) (m k : Action S A)
      → Advances keep d m Q
      → Advances keep d k Q
      → Advances keep d (if t then m else k) Q
  Advances-if true m k hm hk = hm
  Advances-if false m k hm hk = hk

module _ {S A B : Type 0} {keep : ℕ → S → Type 0} {d : ℕ} where
  -- The first action moves the clock, or the second does.
  Advances-first :
      {Q : A → Type 0} {T : B → Type 0} {m : Action S A} {f : A → Action S B}
      → Advances keep d m Q
      → ((n : ℕ) (a : A) → Q a → Ensures IsWf (keep n) (f a) T)
      → Advances keep d (m >>= f) T
  unfolding ◌>>=◌
  Advances-first {m} {f} hm hf = record {
    at = λ n r b w k.
        let (q, w', k') = hm.at n r b w k in (hf (n + d) (m r b).0 q).at (m r b).1 (m r b).2 w' k';
  }

  Advances-after :
      {Q : A → Type 0} {T : B → Type 0} {m : Action S A} {f : A → Action S B}
      → ((n : ℕ) → Ensures IsWf (keep n) m Q)
      → ((a : A) → Q a → Advances keep d (f a) T)
      → Advances keep d (m >>= f) T
  unfolding ◌>>=◌
  Advances-after {m} {f} hm hf = record {
    at = λ n r b w k.
        let (q, w', k') = (hm n).at r b w k in (hf (m r b).0 q).at n (m r b).1 (m r b).2 w' k';
  }

force_page_one-stopped : (r : Cpu) → (force_page_one r).stopped ≡ r.stopped
unfolding force_page_one
force_page_one-stopped r = elim (Bool-cases r.e) [
  | inl h ↦ ap (λ (u : Cpu). u.stopped) (if_true r.e _ r h)
  | inr h ↦ ap (λ (u : Cpu). u.stopped) (if_false r.e _ r h)
]

module _ {S : Type 0} ⦃bus : Bus S⦄ {keep : ℕ → S → Type 0} {d : ℕ}
    (timed : IsTimedBus bus keep d) where
  read-Advances : (addr : ℕ) → IsLong addr → Advances keep d (read addr) IsByte
  unfolding read
  read-Advances addr h = record {
    at = λ n r b w k. (((timed.safe n).read_safe addr b h k).0, w, timed.read_costs n addr b h k);
  }

  idle-Advances : Advances keep d idle IsAny
  unfolding idle
  idle-Advances = record { at = λ n r b w k. (tt, w, timed.idle_costs n b k) }

  fetch8-Advances : Advances keep d fetch8 IsByte
  unfolding fetch8
  fetch8-Advances =
      Advances-after
        (λ n.
          Ensures-gets {Q = IsLong} _ (λ r w. long_address-IsLong r.pbr r.pc w.pbr_fits w.pc_fits))
        λ addr h.
          Advances-after
            (λ n. Ensures-modify _ (λ r w. set_pc-IsWf r w (add16 r.pc 1) (omega arith)))
            λ _ _. read-Advances addr h

  service_interrupt-Advances : (kind : IntKind) → Advances keep d (service_interrupt kind) IsAny
  unfolding service_interrupt
  service_interrupt-Advances kind = Advances-first idle-Advances λ n _ _.
      Ensures-bind (Ensures-idle (timed.safe n)) λ _ _.
        Ensures-bind {Q = IsAny} (Ensures-gets _ (λ _ _. tt)) λ e _.
          Ensures-if e _ _ (enter_emulated-Ensures (timed.safe n) kind)
            (enter_native-Ensures (timed.safe n) kind)

  instruction-Advances : Advances keep d instruction IsAny
  unfolding instruction
  instruction-Advances =
      Advances-first fetch8-Advances λ n opcode _. execute-Ensures (timed.safe n) opcode

  line_boundary-Advances : Advances keep d line_boundary IsAny
  unfolding line_boundary
  line_boundary-Advances =
      Advances-after (λ n. Ensures-irq_line (timed.safe n))
        λ line _.
          Advances-after {Q = IsAny} (λ n. Ensures-gets _ (λ _ _. tt))
            λ t _. Advances-if (line && t) _ _ (service_interrupt-Advances irq) instruction-Advances

  boundary-Advances : Advances keep d boundary IsAny
  unfolding boundary
  boundary-Advances =
      Advances-after (λ n. Ensures-take_nmi (timed.safe n))
        λ edge _. Advances-if edge _ _ (service_interrupt-Advances nmi) line_boundary-Advances

  release-Advances : Advances keep d release IsAny
  unfolding release
  release-Advances =
      Advances-after (λ n. Ensures-modify _ wake-IsWf)
        λ _ _.
          Advances-after {Q = IsAny} (λ n. Ensures-gets _ (λ _ _. tt))
            λ t _.
              Advances-after {Q = IsAny}
                (λ n.
                  Ensures-if t _ _ (service_interrupt-Ensures (timed.safe n) irq)
                    (Ensures-pure tt tt))
                λ _ _. boundary-Advances

  wait_step-Advances : Advances keep d wait_step IsAny
  unfolding wait_step wake_nmi line_wait
  wait_step-Advances =
      Advances-after (λ n. Ensures-take_nmi (timed.safe n))
        λ edge _.
          Advances-if edge _ _
            (Advances-after (λ n. Ensures-modify _ wake-IsWf) λ _ _. service_interrupt-Advances nmi)
            (Advances-after (λ n. Ensures-irq_line (timed.safe n))
              λ line _. Advances-if line _ _ release-Advances idle-Advances)

  running-Advances : (r : Cpu) → Advances keep d (if r.waiting then wait_step else boundary) IsAny
  running-Advances r = Advances-if r.waiting _ _ wait_step-Advances boundary-Advances

  -- From well-formed registers of a processor that is not stopped, on a bus whose clock is at `n` or
  -- later and on which a read and an idle cycle cost at least `d`, one step, be it an instruction,
  -- an interrupt entry or a wait, leaves the clock at `n + d` or later, and the registers settled.
  pub step-advances :
      (n : ℕ) (r : Cpu) (b : S)
      → IsWf r
      → r.stopped ≡ false
      → keep n b
      → IsSettled (step r b).1 × keep (n + d) (step r b).2
  unfolding step step_inner ◌>>=◌ modify gets
  step-advances n r b w h k =
      let r' = force_page_one r in
      let (_, w', k') = (running-Advances r').at n r' b (force_page_one-IsWf r w) k in
      let run = if r'.waiting then wait_step else boundary in
      subst
        (λ (m : Action S (Unit {0})).
          IsSettled (force_page_one (m r' b).1) × keep (n + d) (m r' b).2)
        (sym (if_false r'.stopped _ run (force_page_one-stopped r ∙ h)))
        (force_page_one-IsSettled (run r' b).1 w', k')
