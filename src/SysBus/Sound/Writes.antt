-- ===== src/SysBus/Sound/Writes.antt =====
-- The bus invariant through `Bus::write`.
use reference_workload.Base.{
  if-holds, ℕ, ◌+◌, ◌-◌, ◌^◌, ◌<◌, ◌==◌, ◌&&◌, leb, ltb, arith, u8, ◌>>>◌, bit_and, nonzero, Option,
  if◌then◌else◌, update-All, update,
}
use reference_workload.Fault.{Fault}
use reference_workload.Timing.{within, mem_speed}
use reference_workload.Dma
use reference_workload.Dma.{DmaChannel, write_channel}
use reference_workload.SysBus.{SysBus, bank_of, offset_of}
use reference_workload.SysBus.Clock.{add_mclk, recompute_irq_target}
use reference_workload.SysBus.Ports.{low_bank, wram_bank}
use reference_workload.SysBus.Writes.{
  write_nmitimen, divide, write_operand, write_math, write_timer, write_hdmaen, write_dma,
  write_mdmaen, write_b_bus, write_control, write_cpu_io, write_low_bank, sram_bank, write_at,
  write,
}
use reference_workload.SysBus.Sound.{SafeDevices, IsByteChannel, IsSound}
use reference_workload.SysBus.Sound.Memory.{
  with_latches, with_channels, record_fault-IsSound, set_wram-IsSound, write_cart-IsSound,
}
use reference_workload.SysBus.Sound.Clock.{access-IsSound}
use reference_workload.SysBus.Sound.General.{execute_dma-IsSound}
use reference_workload.SysBus.Sound.Ports.{
  write_ppu-IsSound, write_apu_port-IsSound, write_wmdata-IsSound, write_wmadd-IsSound,
}

write_channel-IsByteChannel :
    (reg v : ℕ) (ch : DmaChannel)
    → v < 2 ^ 8
    → IsByteChannel ch
    → IsByteChannel (write_channel reg v ch)
unfolding write_channel
write_channel-IsByteChannel reg v ch p c = record {
  dmap_byte = ground (arith, c.dmap_byte, p);
  bbad_byte = ground (arith, c.bbad_byte, p);
  a1b_byte = ground (arith, c.a1b_byte, p);
  dasb_byte = ground (arith, c.dasb_byte, p);
  ntrl_byte = ground (arith, c.ntrl_byte, p);
}

module _ {P A : Type 0} {safe : SafeDevices P A} {n : ℕ} {first : Option Fault} where
  divide-IsSound :
      (v : ℕ) (self : SysBus P A) → IsSound safe n first self → IsSound safe n first (divide v self)
  unfolding divide
  divide-IsSound v self h = if-holds (IsSound safe n first) (v == 0) h h

  write_operand-IsSound :
      (off v : ℕ) (self : SysBus P A)
      → IsSound safe n first self
      → IsSound safe n first (write_operand off v self)
  unfolding write_operand
  write_operand-IsSound off v self h = if-holds (IsSound safe n first) (off == 0x4202) h (
      if-holds (IsSound safe n first) (off == 0x4203) h (
        if-holds (IsSound safe n first) (off == 0x4204) h
          (if-holds (IsSound safe n first) (off == 0x4205) h (divide-IsSound v self h))))

  write_math-IsSound :
      (off v : ℕ) (self : SysBus P A)
      → v < 2 ^ 8
      → IsSound safe n first self
      → IsSound safe n first (write_math off v self)
  unfolding write_math
  write_math-IsSound off v self p h =
      if-holds (IsSound safe n first) (off == 0x4201) (with_latches self.mdr v self h.mdr_byte p h)
        (write_operand-IsSound off v self h)

  write_timer-IsSound :
      (off v : ℕ) (self : SysBus P A)
      → IsSound safe n first self
      → IsSound safe n first (write_timer off v self)
  unfolding write_timer recompute_irq_target
  write_timer-IsSound off v self h = if-holds (IsSound safe n first) (off == 0x4207) h (
      if-holds (IsSound safe n first) (off == 0x4208) h
        (if-holds (IsSound safe n first) (off == 0x4209) h h))

  write_dma-IsSound :
      (off v : ℕ) (self : SysBus P A)
      → v < 2 ^ 8
      → IsSound safe n first self
      → IsSound safe n first (write_dma off v self)
  unfolding write_dma Dma.write
  write_dma-IsSound off v self p h =
      let i = (off - 0x4300) >>> 4 in
      let reg = u8 (bit_and (off - 0x4300) 0xF) in
      let changed = update i (write_channel reg v (self.dma i)) self.dma in
      with_channels (if leb 8 i then self.dma else changed) self
        (if-holds (λ (d : ℕ → DmaChannel). (j : ℕ) → IsByteChannel (d j)) (leb 8 i) h.channels
          (update-All IsByteChannel i _ self.dma
            (write_channel-IsByteChannel reg v (self.dma i) p (h.channels i)) h.channels))
        h

  write_mdmaen-IsSound :
      (v : ℕ) (self : SysBus P A)
      → IsSound safe n first self
      → IsSound safe n first (write_mdmaen safe.dev v self)
  unfolding write_mdmaen
  write_mdmaen-IsSound v self h = if-holds (IsSound safe n first) (v == 0) h (
      if-holds (IsSound safe n first) (nonzero (bit_and v self.hdmaen))
        (record_fault-IsSound _ self h) (execute_dma-IsSound v self h))

  write_b_bus-IsSound :
      (addr off v : ℕ) (self : SysBus P A)
      → v < 2 ^ 8
      → IsSound safe n first self
      → IsSound safe n first (write_b_bus safe.dev addr off v self)
  unfolding write_b_bus
  write_b_bus-IsSound addr off v self p h =
      if-holds (IsSound safe n first) (within 0x2100 0x2133 off) (write_ppu-IsSound _ v self p h) (
        if-holds (IsSound safe n first) (within 0x2140 0x217F off)
          (write_apu_port-IsSound _ v self p h)
          (if-holds (IsSound safe n first) (off == 0x2180) (write_wmdata-IsSound v self p h) (
            if-holds (IsSound safe n first) (within 0x2181 0x2183 off)
              (write_wmadd-IsSound (off - 0x2100) v self h) (record_fault-IsSound _ self h))))

  write_control-IsSound :
      (addr off v : ℕ) (self : SysBus P A)
      → IsSound safe n first self
      → IsSound safe n first (write_control safe.dev addr off v self)
  unfolding write_control write_hdmaen
  write_control-IsSound addr off v self h =
      if-holds (IsSound safe n first) (off == 0x420B) (write_mdmaen-IsSound v self h) (
        if-holds (IsSound safe n first) (off == 0x420C) h
          (if-holds (IsSound safe n first) (off == 0x420D) h (record_fault-IsSound _ self h)))

  write_cpu_io-IsSound :
      (addr off v : ℕ) (self : SysBus P A)
      → v < 2 ^ 8
      → IsSound safe n first self
      → IsSound safe n first (write_cpu_io safe.dev addr off v self)
  unfolding write_cpu_io write_nmitimen recompute_irq_target
  write_cpu_io-IsSound addr off v self p h = if-holds (IsSound safe n first) (off == 0x4016) h (
      if-holds (IsSound safe n first) (off == 0x4200) h (
        if-holds (IsSound safe n first) (within 0x4201 0x4206 off)
          (write_math-IsSound off v self p h)
          (if-holds (IsSound safe n first) (within 0x4207 0x420A off)
            (write_timer-IsSound off v self h) (write_control-IsSound addr off v self h))))

  write_low_bank-IsSound :
      (addr off v : ℕ) (self : SysBus P A)
      → v < 2 ^ 8
      → IsSound safe n first self
      → IsSound safe n first (write_low_bank safe.dev addr off v self)
  unfolding write_low_bank
  write_low_bank-IsSound addr off v self p h =
      if-holds (IsSound safe n first) (leb off 0x1FFF) (set_wram-IsSound _ v self p h) (
        if-holds (IsSound safe n first) (leb off 0x21FF) (write_b_bus-IsSound addr off v self p h) (
          if-holds (IsSound safe n first) (leb off 0x42FF)
            (write_cpu_io-IsSound addr off v self p h)
            (if-holds (IsSound safe n first) (leb off 0x437F) (write_dma-IsSound off v self p h)
              (record_fault-IsSound _ self h))))

  write_at-IsSound :
      (addr v : ℕ) (self : SysBus P A)
      → v < 2 ^ 8
      → IsSound safe n first self
      → IsSound safe n first (write_at safe.dev addr v self)
  unfolding write_at
  write_at-IsSound addr v self p h =
      if-holds (IsSound safe n first) (wram_bank (bank_of addr)) (set_wram-IsSound _ v self p h) (
        if-holds (IsSound safe n first) (low_bank (bank_of addr))
          (write_low_bank-IsSound addr (offset_of addr) v self p h)
          (if-holds (IsSound safe n first) (sram_bank (bank_of addr) && ltb (offset_of addr) 0x8000)
            (write_cart-IsSound addr v self p h) (record_fault-IsSound _ self h)))

module _ {P A : Type 0} {safe : SafeDevices P A} {n : ℕ} {first : Option Fault} where
  pub write-IsSound :
      (addr v : ℕ) (self : SysBus P A)
      → v < 2 ^ 8
      → IsSound safe n first self
      → IsSound safe (n + 6) first (write safe.dev addr v self)
  unfolding write
  write-IsSound addr v self p h =
      write_at-IsSound addr v (add_mclk (mem_speed addr self.fast_rom) self) p
        (access-IsSound addr self h)
