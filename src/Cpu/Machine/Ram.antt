-- ===== src/Cpu/Machine/Ram.antt =====
-- Exact runs of actions on a bus whose memory only the CPU's writes change.
use reference_workload.Base.{
  ℕ, ◌^◌, ◌<◌, ◌≡◌, refl, sym, ap, ◌∙◌, ◌≢◌, List, [], ◌∷◌, All, Bool, true, false, if◌then◌else◌,
  arith,
}
use mathlib.Core.Path.{subst}
use reference_workload.Cpu.Registers.{Cpu}
use reference_workload.Cpu.Machine.{Bus, Action, pure, gets, ◌>>=◌, modify, read, write, idle}

-- `mem` is the memory in the region `within`: reads there give it, writes change one cell, and
-- neither a read of any address nor an idle cycle changes it.
pub record IsRam {S : Type 0} (bus : Bus S) (mem : ℕ → S → ℕ) (within : ℕ → Type 0) : Type 0 where
  pub read_value : (addr : ℕ) (b : S) → within addr → (bus.bus_read addr b).0 ≡ mem addr b
  pub read_keeps : (addr q : ℕ) (b : S) → within q → mem q (bus.bus_read addr b).1 ≡ mem q b
  pub write_hit :
      (addr v : ℕ) (b : S) → within addr → v < 2 ^ 8 → mem addr (bus.bus_write addr v b) ≡ v
  pub write_miss :
      (addr q v : ℕ) (b : S)
      → within addr
      → within q
      → addr ≢ q
      → mem q (bus.bus_write addr v b) ≡ mem q b
  pub idle_keeps : (q : ℕ) (b : S) → within q → mem q (bus.bus_idle b) ≡ mem q b

-- From registers `r` and a bus with `P`, the action gives exactly `a` and `r'`, and a bus with `Q`.
pub record Runs {S A : Type 0} (P : S → Type 0) (m : Action S A) (r : Cpu) (a : A) (r' : Cpu)
    (Q : S → Type 0) : Type 0 where
  pub at : (b : S) → P b → (b' : S) × (m r b ≡ (a, r', b')) × Q b'

-- From registers `r` and a bus with `P`, the action ends in registers and a bus that `post` relates.
pub record Leaves {S A : Type 0} (P : S → Type 0) (m : Action S A) (r : Cpu)
    (post : Cpu → S → Type 0) : Type 0 where
  pub at : (b : S) → P b → post (m r b).1 (m r b).2

pub Leaves-bind :
    {S A B : Type 0} {P Q : S → Type 0} {m : Action S A} (f : A → Action S B) {r r' : Cpu} {a : A}
    (post : Cpu → S → Type 0)
    → Runs P m r a r' Q
    → Leaves Q (f a) r' post
    → Leaves P (m >>= f) r post
unfolding ◌>>=◌
Leaves-bind f post hm hf = record {
  at = λ b p.
      let (b', e, q) = hm.at b p in
      subst (λ u. post (f u.0 u.1 u.2).1 (f u.0 u.1 u.2).2) (sym e) (hf.at b' q);
}

module _ {S A B : Type 0} {P Q T : S → Type 0} where
  pub Runs-bind :
      {m : Action S A} (f : A → Action S B) {r r' r'' : Cpu} {a : A} {c : B}
      → Runs P m r a r' Q
      → Runs Q (f a) r' c r'' T
      → Runs P (m >>= f) r c r'' T
  unfolding ◌>>=◌
  Runs-bind f hm hf = record {
    at = λ b p.
        let (b', e, q) = hm.at b p in
        let (b'', e', t) = hf.at b' q in (b'', ap (λ u. f u.0 u.1 u.2) e ∙ e', t);
  }

module _ {S A : Type 0} {P : S → Type 0} where
  pub Runs-pure : (a : A) (r : Cpu) → Runs P (pure a) r a r P
  unfolding pure
  Runs-pure a r = record { at = λ b p. (b, refl, p) }

  pub Runs-gets : (f : Cpu → A) (r : Cpu) → Runs P (gets f) r (f r) r P
  unfolding gets
  Runs-gets f r = record { at = λ b p. (b, refl, p) }

  -- The value and the registers may be given in another form.
  pub Runs-cast :
      {m : Action S A} {r r' r'' : Cpu} {a a' : A} {Q : S → Type 0}
      → a ≡ a'
      → r' ≡ r''
      → Runs P m r a r' Q
      → Runs P m r a' r'' Q
  Runs-cast e e' h = record {
    at = λ b p. let (b', g, q) = h.at b p in (b', g ∙ (λ i. (e i, e' i, b')), q);
  }

module _ {S A : Type 0} {P Q : S → Type 0} {r r' : Cpu} {a : A} where
  pub Runs-else :
      (t : Bool) (m n : Action S A)
      → t ≡ false
      → Runs P n r a r' Q
      → Runs P (if t then m else n) r a r' Q
  Runs-else true m n h run = absurd (ground (arith, h))
  Runs-else false m n h run = run

pub Runs-modify :
    {S : Type 0} {P : S → Type 0} (f : Cpu → Cpu) (r : Cpu) → Runs P (modify f) r tt (f r) P
unfolding modify
Runs-modify f r = record { at = λ b p. (b, refl, p) }

module _ {S : Type 0} ⦃bus : Bus S⦄ {mem : ℕ → S → ℕ} {within : ℕ → Type 0}
    (ram : IsRam bus mem within) where
  -- The cells that are known, each an address and what is there.
  abbrev pub Holds : List (ℕ × ℕ) → S → Type 0
  Holds cells b = All (λ (c : ℕ × ℕ). within c.0 × (mem c.0 b ≡ c.1)) cells

  abbrev pub Apart : ℕ → List (ℕ × ℕ) → Type 0
  Apart addr cells = All (λ (c : ℕ × ℕ). addr ≢ c.0) cells

  pub Holds-read :
      (addr : ℕ) (b : S) (cells : List (ℕ × ℕ))
      → Holds cells b
      → Holds cells (bus.bus_read addr b).1
  Holds-read addr b [] h = h
  Holds-read addr b (c ∷ cells) ((i, e), h) =
      ((i, ram.read_keeps addr c.0 b i ∙ e), Holds-read addr b cells h)

  Holds-idle : (b : S) (cells : List (ℕ × ℕ)) → Holds cells b → Holds cells (bus.bus_idle b)
  Holds-idle b [] h = h
  Holds-idle b (c ∷ cells) ((i, e), h) = ((i, ram.idle_keeps c.0 b i ∙ e), Holds-idle b cells h)

  Holds-write :
      (addr v : ℕ) (b : S) (cells : List (ℕ × ℕ))
      → within addr
      → Apart addr cells
      → Holds cells b
      → Holds cells (bus.bus_write addr v b)
  Holds-write addr v b [] w n h = h
  Holds-write addr v b (c ∷ cells) w (n, ns) ((i, e), h) =
      ((i, ram.write_miss addr c.0 v b w i n ∙ e), Holds-write addr v b cells w ns h)

  pub Runs-idle : (cells : List (ℕ × ℕ)) (r : Cpu) → Runs (Holds cells) idle r tt r (Holds cells)
  unfolding idle
  Runs-idle cells r = record { at = λ b h. (bus.bus_idle b, refl, Holds-idle b cells h) }

  -- A read of a known cell.
  pub Runs-read :
      (addr v : ℕ) (cells : List (ℕ × ℕ)) (r : Cpu)
      → Runs (Holds ((addr, v) ∷ cells)) (read addr) r v r (Holds cells)
  unfolding read
  Runs-read addr v cells r = record {
    at = λ b ((i, e), h). (
      (bus.bus_read addr b).1,
      ap (λ (n : ℕ). (n, r, (bus.bus_read addr b).1)) (ram.read_value addr b i ∙ e),
      Holds-read addr b cells h,
    );
  }

  pub Runs-write :
      (addr v : ℕ) (cells : List (ℕ × ℕ)) (r : Cpu)
      → within addr
      → v < 2 ^ 8
      → Apart addr cells
      → Runs (Holds cells) (write addr v) r tt r (Holds ((addr, v) ∷ cells))
  unfolding write
  Runs-write addr v cells r w k n = record {
    at = λ b h. (
      bus.bus_write addr v b,
      refl,
      ((w, ram.write_hit addr v b w k), Holds-write addr v b cells w n h),
    );
  }
