-- ===== src/SysBus/Sound/Reads.antt =====
-- The bus invariant through `Bus::read`.
use reference_workload.Base.{
  if-holds, ℕ, ◌+◌, ◌-◌, ◌^◌, ◌<◌, ◌==◌, leb, arith, u8, ◌>>>◌, bit_and, Option, Bool, true, false,
  if◌then◌else◌, bit_or, ◌<<<◌,
}
use reference_workload.Base.Bits.{bit_or-lt, bit_and-le, bit_and-le_mask}
use reference_workload.Fault.{Fault}
use reference_workload.Timing.{within, mem_speed}
use reference_workload.Dma
use reference_workload.Dma.{DmaChannel, read_channel}
use reference_workload.Joypad.{read_serial}
use reference_workload.SysBus.{SysBus, bank_of, offset_of}
use reference_workload.SysBus.Clock.{add_mclk}
use reference_workload.SysBus.Ports.{low_bank, wram_bank, latched}
use reference_workload.SysBus.Reads.{
  bit_of, unwrap_or, read_joypad, rdnmi, timeup, read_math, read_auto_joypad, read_dma, read_rom,
  latch_counters, read_picture, hvbjoy, read_b_bus, read_state, read_cpu_io, read_low_bank, read_at,
  read,
}
use reference_workload.SysBus.Sound.{SafeDevices, IsByteChannel, IsSound, IsSoundRead}
use reference_workload.SysBus.Sound.Memory.{latched-IsSound}
use reference_workload.SysBus.Sound.Clock.{access-IsSound}
use reference_workload.SysBus.Sound.Ports.{
  read_cart-IsByte, with_ppu, read_ppu-IsSound, read_wmdata-IsSound, read_apu_port-IsSound,
}

flag-lt : (b : Bool) → bit_of b <<< 7 < 2 ^ 8
unfolding bit_of
flag-lt true = omega arith
flag-lt false = omega arith

bit_of-lt : (b : Bool) → bit_of b < 2 ^ 7
unfolding bit_of
bit_of-lt true = omega arith
bit_of-lt false = omega arith

-- The open bus through a mask.
masked-lt : (mdr mask : ℕ) → mdr < 2 ^ 8 → bit_and mdr mask < 2 ^ 8
masked-lt mdr mask h = omega (arith, bit_and-le mdr mask)

read_channel-lt :
    (ch : DmaChannel) (reg mdr : ℕ)
    → IsByteChannel ch
    → mdr < 2 ^ 8
    → unwrap_or (read_channel ch reg) mdr < 2 ^ 8
unfolding read_channel unwrap_or
read_channel-lt ch reg mdr c m =
    ground (arith, c.dmap_byte, c.bbad_byte, c.a1b_byte, c.dasb_byte, c.ntrl_byte, m)

hblank-lt : (b : Bool) → bit_of b <<< 6 < 2 ^ 8
unfolding bit_of
hblank-lt true = omega arith
hblank-lt false = omega arith

hvbjoy_value-lt :
    (vblank hblank busy : Bool) (mdr : ℕ)
    → mdr < 2 ^ 8
    → bit_or
        (bit_or (bit_or (bit_of vblank <<< 7) (bit_of hblank <<< 6)) (bit_and mdr 0x3E))
        (bit_of busy)
      < 2 ^ 8
hvbjoy_value-lt vblank hblank busy mdr m =
    bit_or-lt 8 _ (bit_of busy)
      (bit_or-lt 8 _ (bit_and mdr 0x3E)
        (bit_or-lt 8 (bit_of vblank <<< 7) (bit_of hblank <<< 6) (flag-lt vblank)
          (hblank-lt hblank))
        (masked-lt mdr 0x3E m))
      (omega (arith, bit_of-lt busy))

module _ {P A : Type 0} {safe : SafeDevices P A} {n : ℕ} {first : Option Fault} where
  read_joypad-IsSound :
      (self : SysBus P A) → IsSound safe n first self → IsSoundRead safe n first (read_joypad self)
  unfolding read_joypad
  read_joypad-IsSound self h =
      let serial = (read_serial self.joypad).0 in
      latched-IsSound _ (record self { joypad = (read_serial self.joypad).1 })
        (bit_or-lt 8 (bit_and serial 1) (bit_and self.mdr 0xFC)
          (omega (arith, bit_and-le_mask serial 1)) (masked-lt self.mdr 0xFC h.mdr_byte))
        h

  rdnmi-IsSound :
      (self : SysBus P A) → IsSound safe n first self → IsSoundRead safe n first (rdnmi self)
  unfolding rdnmi
  rdnmi-IsSound self h =
      latched-IsSound _ (record self { nmi_flag = false })
        (bit_or-lt 8 _ (bit_and self.mdr 0x70)
          (bit_or-lt 8 (bit_of self.nmi_flag <<< 7) 0x02 (flag-lt self.nmi_flag) (omega arith))
          (masked-lt self.mdr 0x70 h.mdr_byte))
        h

  timeup-IsSound :
      (self : SysBus P A) → IsSound safe n first self → IsSoundRead safe n first (timeup self)
  unfolding timeup
  timeup-IsSound self h =
      latched-IsSound _ (record self { irq_flag = false })
        (bit_or-lt 8 (bit_of self.irq_flag <<< 7) (bit_and self.mdr 0x7F) (flag-lt self.irq_flag)
          (masked-lt self.mdr 0x7F h.mdr_byte))
        h

  read_math-IsSound :
      (off : ℕ) (self : SysBus P A)
      → IsSound safe n first self
      → IsSoundRead safe n first (read_math off self)
  unfolding read_math
  read_math-IsSound off self h =
      if-holds (IsSoundRead safe n first) (off == 0x4213) (latched-IsSound _ self h.wrio_byte h) (
        if-holds (IsSoundRead safe n first) (off == 0x4214) (latched-IsSound _ self (omega arith) h)
          (if-holds (IsSoundRead safe n first) (off == 0x4215)
            (latched-IsSound _ self (omega arith) h)
            (if-holds (IsSoundRead safe n first) (off == 0x4216)
              (latched-IsSound _ self (omega arith) h) (latched-IsSound _ self (omega arith) h))))

  read_auto_joypad-IsSound :
      (off : ℕ) (self : SysBus P A)
      → IsSound safe n first self
      → IsSoundRead safe n first (read_auto_joypad off self)
  unfolding read_auto_joypad
  read_auto_joypad-IsSound off self h =
      if-holds (IsSoundRead safe n first) (off == 0x4218) (latched-IsSound _ self (omega arith) h) (
        if-holds (IsSoundRead safe n first) (off == 0x4219) (latched-IsSound _ self (omega arith) h)
          (latched-IsSound 0 self (omega arith) h))

  read_dma-IsSound :
      (off : ℕ) (self : SysBus P A)
      → IsSound safe n first self
      → IsSoundRead safe n first (read_dma off self)
  unfolding read_dma Dma.read unwrap_or
  read_dma-IsSound off self h =
      let i = (off - 0x4300) >>> 4 in
      let reg = u8 (bit_and (off - 0x4300) 0xF) in
      latched-IsSound _ self
        (if-holds (λ (o : Option ℕ). unwrap_or o self.mdr < 2 ^ 8) (leb 8 i) h.mdr_byte
          (read_channel-lt (self.dma i) reg self.mdr (h.channels i) h.mdr_byte))
        h

  read_rom-IsSound :
      (addr : ℕ) (self : SysBus P A)
      → IsSound safe n first self
      → IsSoundRead safe n first (read_rom addr self)
  unfolding read_rom
  read_rom-IsSound addr self h = latched-IsSound _ self (read_cart-IsByte addr self h) h

  read_picture-IsSound :
      (reg : ℕ) (self : SysBus P A)
      → IsSound safe n first self
      → IsSoundRead safe n first (read_picture safe.dev reg self)
  unfolding read_picture latch_counters
  read_picture-IsSound reg self h =
      if-holds (IsSoundRead safe n first) (leb reg 0x33) (h.mdr_byte, h)
        (read_ppu-IsSound reg (if reg == 0x37 then latch_counters safe.dev self else self) (
          if-holds (IsSound safe n first) (reg == 0x37)
            (with_ppu _ self (safe.latch_safe _ self.ppu h.ppu_sound) h) h))

  hvbjoy-IsSound :
      (self : SysBus P A)
      → IsSound safe n first self
      → IsSoundRead safe n first (hvbjoy safe.dev self)
  unfolding hvbjoy
  hvbjoy-IsSound self h =
      latched-IsSound _ self (hvbjoy_value-lt _ _ self.auto_joy_busy self.mdr h.mdr_byte) h

  read_b_bus-IsSound :
      (off : ℕ) (self : SysBus P A)
      → IsSound safe n first self
      → IsSoundRead safe n first (read_b_bus safe.dev off self)
  unfolding read_b_bus
  read_b_bus-IsSound off self h =
      if-holds (IsSoundRead safe n first) (within 0x2100 0x213F off) (read_picture-IsSound _ self h)
        (if-holds (IsSoundRead safe n first) (within 0x2140 0x217F off)
          (read_apu_port-IsSound _ self h)
          (if-holds (IsSoundRead safe n first) (off == 0x2180) (read_wmdata-IsSound self h)
            (h.mdr_byte, h)))

  read_state-IsSound :
      (off : ℕ) (self : SysBus P A)
      → IsSound safe n first self
      → IsSoundRead safe n first (read_state safe.dev off self)
  unfolding read_state
  read_state-IsSound off self h =
      if-holds (IsSoundRead safe n first) (off == 0x4212) (hvbjoy-IsSound self h) (
        if-holds (IsSoundRead safe n first) (within 0x4213 0x4217 off)
          (read_math-IsSound off self h)
          (if-holds (IsSoundRead safe n first) (within 0x4218 0x421F off)
            (read_auto_joypad-IsSound off self h) (h.mdr_byte, h)))

  port_two-IsSound :
      (self : SysBus P A)
      → IsSound safe n first self
      → IsSoundRead safe n first (latched (bit_or 0x1C (bit_and self.mdr 0xE0)) self)
  port_two-IsSound self h =
      latched-IsSound _ self
        (bit_or-lt 8 0x1C (bit_and self.mdr 0xE0) (omega arith)
          (masked-lt self.mdr 0xE0 h.mdr_byte))
        h

  read_cpu_io-IsSound :
      (off : ℕ) (self : SysBus P A)
      → IsSound safe n first self
      → IsSoundRead safe n first (read_cpu_io safe.dev off self)
  unfolding read_cpu_io
  read_cpu_io-IsSound off self h =
      if-holds (IsSoundRead safe n first) (off == 0x4016) (read_joypad-IsSound self h) (
        if-holds (IsSoundRead safe n first) (off == 0x4017) (port_two-IsSound self h) (
          if-holds (IsSoundRead safe n first) (off == 0x4210) (rdnmi-IsSound self h) (
            if-holds (IsSoundRead safe n first) (off == 0x4211) (timeup-IsSound self h)
              (read_state-IsSound off self h))))

  read_low_bank-IsSound :
      (addr off : ℕ) (self : SysBus P A)
      → IsSound safe n first self
      → IsSoundRead safe n first (read_low_bank safe.dev addr off self)
  unfolding read_low_bank
  read_low_bank-IsSound addr off self h =
      if-holds (IsSoundRead safe n first) (leb off 0x1FFF)
        (latched-IsSound _ self (h.wram_bytes _) h)
        (if-holds (IsSoundRead safe n first) (leb off 0x21FF) (read_b_bus-IsSound off self h) (
          if-holds (IsSoundRead safe n first) (leb off 0x42FF) (read_cpu_io-IsSound off self h) (
            if-holds (IsSoundRead safe n first) (leb off 0x437F) (read_dma-IsSound off self h) (
              if-holds (IsSoundRead safe n first) (leb 0x8000 off) (read_rom-IsSound addr self h)
                (h.mdr_byte, h)))))

  read_at-IsSound :
      (addr : ℕ) (self : SysBus P A)
      → IsSound safe n first self
      → IsSoundRead safe n first (read_at safe.dev addr self)
  unfolding read_at
  read_at-IsSound addr self h =
      if-holds (IsSoundRead safe n first) (wram_bank (bank_of addr))
        (latched-IsSound _ self (h.wram_bytes _) h)
        (if-holds (IsSoundRead safe n first) (low_bank (bank_of addr))
          (read_low_bank-IsSound addr (offset_of addr) self h) (read_rom-IsSound addr self h))

module _ {P A : Type 0} {safe : SafeDevices P A} {n : ℕ} {first : Option Fault} where
  pub read-IsSound :
      (addr : ℕ) (self : SysBus P A)
      → IsSound safe n first self
      → IsSoundRead safe (n + 6) first (read safe.dev addr self)
  unfolding read
  read-IsSound addr self h =
      read_at-IsSound addr (add_mclk (mem_speed addr self.fast_rom) self)
        (access-IsSound addr self h)
