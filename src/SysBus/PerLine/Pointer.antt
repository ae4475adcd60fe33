-- ===== src/SysBus/PerLine/Pointer.antt =====
-- The data pointer of a HDMA channel over the bytes of one line.
use reference_workload.Base.{
  ℕ, suc, ◌+◌, ◌%◌, ◌^◌, ◌<◌, ◌≡◌, refl, ap, ◌∙◌, ◌⊎◌, inl, inr, Bool, true, false, ◌==◌,
  if◌then◌else◌, if-holds, if-split, leb, arith, add16, u8, bit_and, has, List, [], ◌∷◌, length,
  Option, none, some, update_hit,
}
use reference_workload.Dma.{Dma, DmaChannel, HdmaState}
use reference_workload.Fault.{Fault}
use reference_workload.Timing.{within}
use reference_workload.SysBus.{Devices, SysBus, record_fault, fault_if, has_fault}
use reference_workload.SysBus.General.{b_address}
use reference_workload.SysBus.PerLine.{indirect, pointer, step_pointer, hdma_byte, hdma_bytes}
use reference_workload.SysBus.Ports.{
  set_wram, step_wmadd, write_wmdata, write_wmadd, write_ppu, a_read, b_write,
}

-- The data pointer `m` bytes further: DAS in the indirect mode, else A2A.
abbrev pub shift : Bool → ℕ → DmaChannel → DmaChannel
shift true m ch = record ch { das = (ch.das + m) % 2 ^ 16 }
shift false m ch = record ch { a2a = (ch.a2a + m) % 2 ^ 16 }

pub shift-shift :
    (b : Bool) (k m : ℕ) (ch : DmaChannel) → shift b m (shift b k ch) ≡ shift b (k + m) ch
shift-shift true k m ch =
    ap (λ (v : ℕ). record ch { das = v }) {x = ((ch.das + k) % 2 ^ 16 + m) % 2 ^ 16}
      {y = (ch.das + (k + m)) % 2 ^ 16} (omega arith)
shift-shift false k m ch =
    ap (λ (v : ℕ). record ch { a2a = v }) {x = ((ch.a2a + k) % 2 ^ 16 + m) % 2 ^ 16}
      {y = (ch.a2a + (k + m)) % 2 ^ 16} (omega arith)

pub shift_dmap : (b : Bool) (m : ℕ) (ch : DmaChannel) → (shift b m ch).dmap ≡ ch.dmap
shift_dmap true m ch = refl
shift_dmap false m ch = refl

shift_one :
    (b : Bool) (ch : DmaChannel)
    → (if b then record ch { das = add16 ch.das 1 } else record ch { a2a = add16 ch.a2a 1 })
      ≡ shift b 1 ch
shift_one true ch = refl
shift_one false ch = refl

module _ {P A : Type 0} where
  -- The DMA and HDMA registers are those.
  abbrev Has : Dma → (ℕ → HdmaState) → ℕ → SysBus P A → Type 0
  Has d h e self = (self.dma ≡ d) × (self.hdma ≡ h) × (self.hdmaen ≡ e)

  fault_if-Has :
      (d : Dma) (h : ℕ → HdmaState) (e : ℕ) (f : Option Fault) (self : SysBus P A)
      → Has d h e self
      → Has d h e (fault_if f self)
  unfolding fault_if record_fault
  fault_if-Has d h e none self k = k
  fault_if-Has d h e (some f) self k = k

  -- The pointer of channel `i` has moved past `m` bytes, and every channel is as active as before.
  pub record Moved (i m : ℕ) (self self' : SysBus P A) : Type 0 where
    pub registers : self'.dma i ≡ shift (indirect (self.dma i)) m (self.dma i)
    pub states : self'.hdma ≡ self.hdma
    pub enabled : self'.hdmaen ≡ self.hdmaen

module _ {P A : Type 0} (dev : Devices P A) where
  b_write-Has :
      (addr v : ℕ) (self : SysBus P A)
      → Has self.dma self.hdma self.hdmaen (b_write dev addr v self)
  unfolding b_write write_ppu write_wmdata step_wmadd set_wram write_wmadd
  b_write-Has addr v self =
      let reg = u8 (bit_and addr 0xFF) in
      let Q = Has self.dma self.hdma self.hdmaen in
      let same : Q self = (refl, refl, refl) in
      if-holds Q (leb reg 0x33)
        (fault_if-Has self.dma self.hdma self.hdmaen (dev.ppu_write reg v self.ppu).0
          (record self { ppu = (dev.ppu_write reg v self.ppu).1 }) (refl, refl, refl))
        (if-holds Q (within 0x40 0x7F reg) (refl, refl, refl)
          (if-holds Q (reg == 0x80) (refl, refl, refl)
            (if-holds Q (within 0x81 0x83 reg) (refl, refl, refl) same)))

  hdma_byte-Moved :
      (i offset : ℕ) (self : SysBus P A) → Moved i 1 self (hdma_byte dev i offset self)
  unfolding hdma_byte step_pointer
  hdma_byte-Moved i offset self =
      let v = a_read (pointer (self.dma i)) self in
      let written = b_write dev (b_address (self.dma i).bbad offset) v self in
      let (d, h, e) = b_write-Has (b_address (self.dma i).bbad offset) v self in
      let step : DmaChannel → DmaChannel = λ ch.
        if indirect ch
        then record ch { das = add16 ch.das 1 }
        else record ch { a2a = add16 ch.a2a 1 } in
      record {
        registers =
            update_hit i (step (written.dma i)) written.dma
            ∙ ap (λ (r : Dma). step (r i)) d
            ∙ shift_one (indirect (self.dma i)) (self.dma i);
        states = h;
        enabled = e;
      }

  Moved-trans :
      (i k m n : ℕ) (s1 s2 s3 : SysBus P A)
      → k + m ≡ n
      → Moved i k s1 s2
      → Moved i m s2 s3
      → Moved i n s1 s3
  Moved-trans i k m n s1 s2 s3 sum a b =
      let c = s1.dma i in
      record {
        registers =
            b.registers
            ∙ ap (λ (ch : DmaChannel). shift (indirect ch) m ch) a.registers
            ∙ ap (λ (n : ℕ). shift (has n 0x40) m (shift (indirect c) k c))
                (shift_dmap (indirect c) k c)
            ∙ shift-shift (indirect c) k m c
            ∙ ap (λ (l : ℕ). shift (indirect c) l c) sum;
        states = b.states ∙ a.states;
        enabled = b.enabled ∙ a.enabled;
      }

  -- The bytes of a line move the pointer past them all, or one of them faulted.
  hdma_bytes-cons :
      (i offset : ℕ) (rest : List ℕ) (self : SysBus P A)
      → (has_fault (hdma_bytes dev i (offset ∷ rest) self) ≡ true)
        ⊎ ((has_fault (hdma_bytes dev i (offset ∷ rest) self) ≡ false)
            × Moved i (length (offset ∷ rest)) self (hdma_bytes dev i (offset ∷ rest) self))
  unfolding hdma_bytes
  hdma_bytes-cons i offset [] self =
      let after = hdma_byte dev i offset self in
      if-split
        (λ (s : SysBus P A). (has_fault s ≡ true) ⊎ ((has_fault s ≡ false) × Moved i 1 self s))
        (has_fault after) (λ t. inl t) λ f. inr (f, hdma_byte-Moved i offset self)
  hdma_bytes-cons i offset (next ∷ rest) self =
      let after = hdma_byte dev i offset self in
      let m = length (next ∷ rest) in
      if-split
        (λ (s : SysBus P A).
          (has_fault s ≡ true) ⊎ ((has_fault s ≡ false) × Moved i (suc m) self s))
        (has_fault after) (λ t. inl t)
        λ _. elim (hdma_bytes-cons i next rest after) [
          | inl t ↦ inl t
          | inr (f, moved) ↦ inr (
            f,
            Moved-trans i 1 m (suc m) self after (hdma_bytes dev i (next ∷ rest) after)
                (omega arith) (hdma_byte-Moved i offset self) moved,
          )
        ]

  pub hdma_bytes-Moved :
      (i : ℕ) (pattern : List ℕ) (self : SysBus P A)
      → 0 < length pattern
      → (has_fault (hdma_bytes dev i pattern self) ≡ true)
        ⊎ ((has_fault (hdma_bytes dev i pattern self) ≡ false)
            × Moved i (length pattern) self (hdma_bytes dev i pattern self))
  hdma_bytes-Moved i [] self h = absurd (omega (arith, h))
  hdma_bytes-Moved i (offset ∷ rest) self h = hdma_bytes-cons i offset rest self
