-- ===== src/SysBus/Reads.antt =====
-- `Bus::read` of the system bus, crates/refwork-emu/src/bus.rs.
use reference_workload.Base.{
  ℕ, ◌-◌, ◌*◌, ◌/◌, ◌%◌, Bool, true, false, if◌then◌else◌, leb, ◌==◌, u8, u16, ◌>>>◌, ◌<<<◌,
  bit_and, bit_or, Option, none, some,
}
use reference_workload.Timing.{within, mem_speed, mclk_per_line, hblank_start_dot}
use reference_workload.Dma
use reference_workload.Joypad.{read_serial}
use reference_workload.SysBus.{Devices, SysBus, bank_of, offset_of}
use reference_workload.SysBus.Clock.{add_mclk}
use reference_workload.SysBus.Ports.{
  low_bank, wram_bank, wram_offset, read_cart, latched, read_ppu, read_wmdata, read_apu_port,
}

-- `flag as u8`.
unfoldable pub bit_of : Bool → ℕ
bit_of true = 1
bit_of false = 0

-- `opt.unwrap_or(mdr)`.
unfoldable pub unwrap_or : Option ℕ → ℕ → ℕ
unwrap_or none mdr = mdr
unwrap_or (some v) mdr = v

module _ {P A : Type 0} where
  -- Registers that give the open bus and latch nothing.
  abbrev pub floating : SysBus P A → ℕ × SysBus P A
  floating self = (self.mdr, self)

  unfoldable pub read_joypad : SysBus P A → ℕ × SysBus P A
  unfolding latched
  read_joypad self =
      let (serial, joypad) = read_serial self.joypad in
      latched (bit_or (bit_and serial 0x01) (bit_and self.mdr 0xFC))
        (record self { joypad = joypad })

  unfoldable pub rdnmi : SysBus P A → ℕ × SysBus P A
  unfolding latched bit_of
  rdnmi self =
      latched (bit_or (bit_or (bit_of self.nmi_flag <<< 7) 0x02) (bit_and self.mdr 0x70))
        (record self { nmi_flag = false })

  unfoldable pub timeup : SysBus P A → ℕ × SysBus P A
  unfolding latched bit_of
  timeup self =
      latched (bit_or (bit_of self.irq_flag <<< 7) (bit_and self.mdr 0x7F))
        (record self { irq_flag = false })

  -- What $4218/$4219 show, the previous latch while the busy flag is up.
  abbrev pub shown_joypad : SysBus P A → ℕ
  shown_joypad self = if self.auto_joy_busy then self.joy_prev else self.joypad.joy1

  unfoldable pub read_math : ℕ → SysBus P A → ℕ × SysBus P A
  unfolding latched
  read_math off self =
      if off == 0x4213
      then latched self.wrio self
      else if off == 0x4214
      then latched (u8 self.rddiv) self
      else if off == 0x4215
      then latched (u8 (self.rddiv >>> 8)) self
      else if off == 0x4216
      then latched (u8 self.rdmpy) self
      else latched (u8 (self.rdmpy >>> 8)) self

  unfoldable pub read_auto_joypad : ℕ → SysBus P A → ℕ × SysBus P A
  unfolding latched
  read_auto_joypad off self =
      if off == 0x4218
      then latched (u8 (shown_joypad self)) self
      else if off == 0x4219
      then latched (u8 (shown_joypad self >>> 8)) self
      else latched 0 self

  unfoldable pub read_dma : ℕ → SysBus P A → ℕ × SysBus P A
  unfolding latched unwrap_or
  read_dma off self =
      latched
        (unwrap_or (Dma.read self.dma ((off - 0x4300) >>> 4) (u8 (bit_and (off - 0x4300) 0xF)))
          self.mdr)
        self

  unfoldable pub read_rom : ℕ → SysBus P A → ℕ × SysBus P A
  unfolding latched
  read_rom addr self = latched (read_cart addr self) self

module _ {P A : Type 0} (dev : Devices P A) where
  unfoldable pub latch_counters : SysBus P A → SysBus P A
  latch_counters self =
      let dot = u16 ((self.mclk_frame % mclk_per_line) / 4) in
      record self { ppu = dev.latch_hv_counters dot self.ppu }

  -- $2100-$213F.
  unfoldable pub read_picture : ℕ → SysBus P A → ℕ × SysBus P A
  unfolding latch_counters read_ppu
  read_picture reg self =
      if leb reg 0x33
      then floating self
      else read_ppu dev reg (if reg == 0x37 then latch_counters self else self)

  unfoldable pub hvbjoy : SysBus P A → ℕ × SysBus P A
  unfolding latched bit_of
  hvbjoy self =
      let vblank = leb (dev.vblank_start_line self.ppu) self.line in
      let hblank = leb (hblank_start_dot * 4) (self.mclk_frame % mclk_per_line) in
      latched
        (bit_or
          (bit_or (bit_or (bit_of vblank <<< 7) (bit_of hblank <<< 6)) (bit_and self.mdr 0x3E))
          (bit_of self.auto_joy_busy))
        self

  -- $2000-$21FF.
  unfoldable pub read_b_bus : ℕ → SysBus P A → ℕ × SysBus P A
  unfolding read_picture read_apu_port read_wmdata
  read_b_bus off self =
      if within 0x2100 0x213F off
      then read_picture (u8 (off - 0x2100)) self
      else if within 0x2140 0x217F off
      then read_apu_port dev (u8 (bit_and off 3)) self
      else if off == 0x2180
      then read_wmdata self
      else floating self

  -- $4212-$421F; other offsets float.
  unfoldable pub read_state : ℕ → SysBus P A → ℕ × SysBus P A
  unfolding hvbjoy read_math read_auto_joypad
  read_state off self =
      if off == 0x4212
      then hvbjoy self
      else if within 0x4213 0x4217 off
      then read_math off self
      else if within 0x4218 0x421F off
      then read_auto_joypad off self
      else floating self

  -- $2200-$42FF.
  unfoldable pub read_cpu_io : ℕ → SysBus P A → ℕ × SysBus P A
  unfolding read_joypad rdnmi timeup read_state latched
  read_cpu_io off self =
      if off == 0x4016
      then read_joypad self
      else if off == 0x4017
      then latched (bit_or 0x1C (bit_and self.mdr 0xE0)) self
      else if off == 0x4210
      then rdnmi self
      else if off == 0x4211
      then timeup self
      else read_state off self

  -- Banks $00-$3F and $80-$BF.
  unfoldable pub read_low_bank : ℕ → ℕ → SysBus P A → ℕ × SysBus P A
  unfolding read_b_bus read_cpu_io read_dma read_rom latched
  read_low_bank addr off self =
      if leb off 0x1FFF
      then latched (self.wram (bit_and off 0x1FFF)) self
      else if leb off 0x21FF
      then read_b_bus off self
      else if leb off 0x42FF
      then read_cpu_io off self
      else if leb off 0x437F
      then read_dma off self
      else if leb 0x8000 off
      then read_rom addr self
      else floating self

  -- The access without its clocks.
  unfoldable pub read_at : ℕ → SysBus P A → ℕ × SysBus P A
  unfolding read_low_bank read_rom latched
  read_at addr self =
      let bank = bank_of addr in
      let off = offset_of addr in
      if wram_bank bank
      then latched (self.wram (wram_offset bank off)) self
      else if low_bank bank
      then read_low_bank addr off self
      else read_rom addr self

  unfoldable pub read : ℕ → SysBus P A → ℕ × SysBus P A
  unfolding read_at
  read addr self = read_at addr (add_mclk (mem_speed addr self.fast_rom) self)
