-- ===== src/SysBus/General/Keeps.antt =====
-- What moving a byte over the two buses leaves alone: the DMA registers and the clock.
use reference_workload.Base.{
  if-holds, ℕ, ◌+◌, ◌≡◌, refl, ◌&&◌, ◌==◌, leb, ltb, has, u8, bit_and, Option, none, some,
}
use reference_workload.Cart
use reference_workload.Dma.{Dma, DmaChannel}
use reference_workload.Fault.{Fault}
use reference_workload.Timing.{within}
use reference_workload.SysBus.{
  Devices, SysBus, record_fault, fault_if, has_fault, bank_of, offset_of,
}
use reference_workload.SysBus.Clock.{crosses, add_mclk, fire_irq}
use reference_workload.SysBus.Ports.{
  low_bank, wram_bank, a_read, a_write, set_wram, write_cart, step_wmadd, read_wmdata, write_wmdata,
  write_wmadd, latched, read_ppu, write_ppu, b_read, b_write,
}
use reference_workload.SysBus.General.Copies.{a_side, b_side, copy_byte}

module _ {P A : Type 0} where
  -- The DMA registers are `d`, and the clock stands at `m`.
  abbrev pub Has : Dma → ℕ → SysBus P A → Type 0
  Has d m self = (self.dma ≡ d) × (self.mclk_frame ≡ m)

  fault_if-Has :
      (d : Dma) (m : ℕ) (f : Option Fault) (self : SysBus P A)
      → Has d m self
      → Has d m (fault_if f self)
  unfolding fault_if record_fault
  fault_if-Has d m none self h = h
  fault_if-Has d m (some f) self h = h

  write_cart-Has :
      (d : Dma) (m addr v : ℕ) (self : SysBus P A) → Has d m self → Has d m (write_cart addr v self)
  unfolding write_cart record_fault
  write_cart-Has d m addr v self h = if-holds (Has d m) (Cart.write addr v self.cart).0 h h

  a_write-Has :
      (d : Dma) (m addr v : ℕ) (self : SysBus P A) → Has d m self → Has d m (a_write addr v self)
  unfolding a_write set_wram
  a_write-Has d m addr v self h =
      let off = offset_of addr in
      if-holds (Has d m) (low_bank (bank_of addr) && (leb 0x2000 off && ltb off 0x6000)) h (
        if-holds (Has d m) (wram_bank (bank_of addr)) h (
          if-holds (Has d m) (low_bank (bank_of addr) && ltb off 0x2000) h
            (write_cart-Has d m addr v self h)))

  pub add_mclk_clock :
      (k : ℕ) (self : SysBus P A) → (add_mclk k self).mclk_frame ≡ self.mclk_frame + k
  unfolding add_mclk fire_irq
  add_mclk_clock k self =
      if-holds (λ (s : SysBus P A). s.mclk_frame ≡ self.mclk_frame + k)
        (crosses self.mclk_frame (self.mclk_frame + k) self.irq_target_mclk) refl refl

  pub add_mclk_dma : (k : ℕ) (self : SysBus P A) → (add_mclk k self).dma ≡ self.dma
  unfolding add_mclk fire_irq
  add_mclk_dma k self =
      if-holds (λ (s : SysBus P A). s.dma ≡ self.dma)
        (crosses self.mclk_frame (self.mclk_frame + k) self.irq_target_mclk) refl refl

  pub add_mclk_fault : (k : ℕ) (self : SysBus P A) → has_fault (add_mclk k self) ≡ has_fault self
  unfolding add_mclk fire_irq
  add_mclk_fault k self =
      if-holds (λ (s : SysBus P A). has_fault s ≡ has_fault self)
        (crosses self.mclk_frame (self.mclk_frame + k) self.irq_target_mclk) refl refl

module _ {P A : Type 0} (dev : Devices P A) where
  b_read-Has :
      (d : Dma) (m addr : ℕ) (self : SysBus P A) → Has d m self → Has d m (b_read dev addr self).1
  unfolding b_read read_ppu latched read_wmdata step_wmadd
  b_read-Has d m addr self h =
      let reg = u8 (bit_and addr 0xFF) in
      let Q = λ (u : ℕ × SysBus P A). Has d m u.1 in
      if-holds Q (leb reg 0x33) h
        (if-holds Q (leb reg 0x3F) h (if-holds Q (leb reg 0x7F) h (if-holds Q (reg == 0x80) h h)))

  b_write-Has :
      (d : Dma) (m addr v : ℕ) (self : SysBus P A)
      → Has d m self
      → Has d m (b_write dev addr v self)
  unfolding b_write write_ppu write_wmdata step_wmadd set_wram write_wmadd
  b_write-Has d m addr v self h =
      let reg = u8 (bit_and addr 0xFF) in
      if-holds (Has d m) (leb reg 0x33)
        (fault_if-Has d m (dev.ppu_write reg v self.ppu).0
          (record self { ppu = (dev.ppu_write reg v self.ppu).1 }) h)
        (if-holds (Has d m) (within 0x40 0x7F reg) h
          (if-holds (Has d m) (reg == 0x80) h (if-holds (Has d m) (within 0x81 0x83 reg) h h)))

  pub copy_byte-Has :
      (ch : DmaChannel) (j : ℕ) (self : SysBus P A)
      → Has self.dma self.mclk_frame (copy_byte dev ch j self)
  unfolding copy_byte
  copy_byte-Has ch j self =
      let b = b_side ch j in
      let (v, self') = b_read dev b self in
      let a = a_side ch j in
      if-holds (Has self.dma self.mclk_frame) (has ch.dmap 0x80)
        (a_write-Has self.dma self.mclk_frame a v self'
          (b_read-Has self.dma self.mclk_frame b self (refl, refl)))
        (b_write-Has self.dma self.mclk_frame b (a_read a self) self (refl, refl))
