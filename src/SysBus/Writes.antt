-- ===== src/SysBus/Writes.antt =====
-- `Bus::write` of the system bus, crates/refwork-emu/src/bus.rs.
pub mod Division
use reference_workload.Base.{
  ℕ, ◌-◌, ◌*◌, ◌/◌, ◌%◌, ◌^◌, Bool, true, not, ◌&&◌, ◌||◌, if◌then◌else◌, ltb, leb, ◌==◌, u8, u16,
  ◌>>>◌, ◌<<<◌, bit_and, bit_or, has, nonzero, not8, with_low, update, each_below,
}
use reference_workload.Fault.{unmapped_write, hdma_dma_conflict}
use reference_workload.Timing.{within, mem_speed}
use reference_workload.Dma
use reference_workload.Dma.{with_high}
use reference_workload.Joypad.{write_strobe}
use reference_workload.SysBus.{Devices, SysBus, record_fault, bank_of, offset_of}
use reference_workload.SysBus.Clock.{add_mclk, recompute_irq_target}
use reference_workload.SysBus.General.{execute_dma}
use reference_workload.SysBus.Ports.{
  low_bank, wram_bank, wram_offset, set_wram, write_cart, write_ppu, write_apu_port, write_wmdata,
  write_wmadd,
}

-- A 9-bit timer register with a new low byte, or a new bit 8.
unfoldable pub timer_low : ℕ → ℕ → ℕ
timer_low old value = bit_or (bit_and old 0x100) value

unfoldable pub timer_high : ℕ → ℕ → ℕ
timer_high old value = bit_or (bit_and old 0x0FF) (u16 (bit_and value 1 <<< 8))

-- `0x70..=0x7D if off < 0x8000` and `0xF0..=0xFD if off < 0x8000`.
abbrev pub sram_bank : ℕ → Bool
sram_bank bank = within 0x70 0x7D bank || within 0xF0 0xFD bank

module _ {P A : Type 0} where
  -- $4200. Enabling NMI within vertical blank is an edge.
  unfoldable pub write_nmitimen : ℕ → SysBus P A → SysBus P A
  unfolding recompute_irq_target
  write_nmitimen value self = recompute_irq_target (record self {
    nmitimen = value;
    nmi_pending =
        if has value 0x80 && (not (has self.nmitimen 0x80) && self.nmi_flag)
        then true
        else self.nmi_pending;
  })

  unfoldable pub divide : ℕ → SysBus P A → SysBus P A
  divide value self =
      if value == 0
      then record self { rddiv = 0xFFFF; rdmpy = self.wrdiv }
      else record self { rddiv = self.wrdiv / value; rdmpy = self.wrdiv % value }

  -- $4202-$4206.
  unfoldable pub write_operand : ℕ → ℕ → SysBus P A → SysBus P A
  unfolding divide
  write_operand off value self =
      if off == 0x4202
      then record self { wrmpya = value }
      else if off == 0x4203
      then record self { rdmpy = u16 (self.wrmpya * value) }
      else if off == 0x4204
      then record self { wrdiv = with_low self.wrdiv value }
      else if off == 0x4205
      then record self { wrdiv = with_high self.wrdiv value }
      else divide value self

  -- $4201-$4206.
  unfoldable pub write_math : ℕ → ℕ → SysBus P A → SysBus P A
  unfolding write_operand
  write_math off value self =
      if off == 0x4201 then record self { wrio = value } else write_operand off value self

  -- $4207-$420A.
  unfoldable pub write_timer : ℕ → ℕ → SysBus P A → SysBus P A
  unfolding recompute_irq_target
  write_timer off value self = recompute_irq_target (
      if off == 0x4207
      then record self { htime = timer_low self.htime value }
      else if off == 0x4208
      then record self { htime = timer_high self.htime value }
      else if off == 0x4209
      then record self { vtime = timer_low self.vtime value }
      else record self { vtime = timer_high self.vtime value })

  -- $420C. Channels that were off, and did not end this frame, start at once.
  unfoldable pub write_hdmaen : ℕ → SysBus P A → SysBus P A
  write_hdmaen value self =
      let newly = bit_and (bit_and value (not8 self.hdmaen)) (not8 self.hdma_ended) in
      record self {
        hdmaen = value;
        hdma =
            each_below 8
              (λ i states.
                if has newly (2 ^ i)
                then update i (record (states i) { active = true }) states
                else states)
              self.hdma;
      }

  unfoldable pub write_dma : ℕ → ℕ → SysBus P A → SysBus P A
  write_dma off value self = record self {
    dma = Dma.write ((off - 0x4300) >>> 4) (u8 (bit_and (off - 0x4300) 0xF)) value self.dma;
  }

module _ {P A : Type 0} (dev : Devices P A) where
  -- $420B.
  unfoldable pub write_mdmaen : ℕ → SysBus P A → SysBus P A
  unfolding record_fault execute_dma
  write_mdmaen value self =
      if value == 0
      then self
      else if nonzero (bit_and value self.hdmaen)
      then record_fault (hdma_dma_conflict (bit_and value self.hdmaen)) self
      else execute_dma dev value self

  -- $2000-$21FF.
  unfoldable pub write_b_bus : ℕ → ℕ → ℕ → SysBus P A → SysBus P A
  unfolding write_ppu write_apu_port write_wmdata write_wmadd record_fault
  write_b_bus addr off value self =
      if within 0x2100 0x2133 off
      then write_ppu dev (u8 (off - 0x2100)) value self
      else if within 0x2140 0x217F off
      then write_apu_port dev (u8 (bit_and off 3)) value self
      else if off == 0x2180
      then write_wmdata value self
      else if within 0x2181 0x2183 off
      then write_wmadd (off - 0x2100) value self
      else record_fault (unmapped_write addr value) self

  -- $420B-$420D; other offsets fault.
  unfoldable pub write_control : ℕ → ℕ → ℕ → SysBus P A → SysBus P A
  unfolding write_mdmaen write_hdmaen record_fault
  write_control addr off value self =
      if off == 0x420B
      then write_mdmaen value self
      else if off == 0x420C
      then write_hdmaen value self
      else if off == 0x420D
      then record self { fast_rom = nonzero (bit_and value 1) }
      else record_fault (unmapped_write addr value) self

  -- $2200-$42FF.
  unfoldable pub write_cpu_io : ℕ → ℕ → ℕ → SysBus P A → SysBus P A
  unfolding write_nmitimen write_math write_timer write_control
  write_cpu_io addr off value self =
      if off == 0x4016
      then record self { joypad = write_strobe value self.joypad }
      else if off == 0x4200
      then write_nmitimen value self
      else if within 0x4201 0x4206 off
      then write_math off value self
      else if within 0x4207 0x420A off
      then write_timer off value self
      else write_control addr off value self

  unfoldable pub write_low_bank : ℕ → ℕ → ℕ → SysBus P A → SysBus P A
  unfolding set_wram write_b_bus write_cpu_io write_dma record_fault
  write_low_bank addr off value self =
      if leb off 0x1FFF
      then set_wram (bit_and off 0x1FFF) value self
      else if leb off 0x21FF
      then write_b_bus addr off value self
      else if leb off 0x42FF
      then write_cpu_io addr off value self
      else if leb off 0x437F
      then write_dma off value self
      else record_fault (unmapped_write addr value) self

  -- The access without its clocks.
  unfoldable pub write_at : ℕ → ℕ → SysBus P A → SysBus P A
  unfolding set_wram write_low_bank write_cart record_fault
  write_at addr value self =
      let bank = bank_of addr in
      let off = offset_of addr in
      if wram_bank bank
      then set_wram (wram_offset bank off) value self
      else if low_bank bank
      then write_low_bank addr off value self
      else if sram_bank bank && ltb off 0x8000
      then write_cart addr value self
      else record_fault (unmapped_write addr value) self

  unfoldable pub write : ℕ → ℕ → SysBus P A → SysBus P A
  unfolding write_at
  write addr value self = write_at addr value (add_mclk (mem_speed addr self.fast_rom) self)
