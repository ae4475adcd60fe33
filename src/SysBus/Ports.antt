-- ===== src/SysBus/Ports.antt =====
-- Memory as DMA sees it and the audio port, crates/refwork-emu/src/bus.rs.
use reference_workload.Base.{
  ℕ, ◌+◌, ◌-◌, ◌*◌, Bool, true, false, not, ◌&&◌, ◌||◌, if◌then◌else◌, ltb, leb, ◌==◌, u32, bit_and,
  bit_or, ◌<<<◌, update, Option, none, some, u8,
}
use reference_workload.Fault.{apu_stopped, apu_test_trigger, unmapped_write}
use reference_workload.Timing.{within}
use reference_workload.Cart
use reference_workload.Cart.{Reading, open_bus, panicked, byte}
use reference_workload.SysBus.{
  ApuHalt, sleep, stop, test_trigger, Devices, SysBus, record_fault, fault_if, bank_of, offset_of,
}

-- `matches!(bank, 0x00..=0x3F | 0x80..=0xBF)`.
abbrev pub low_bank : ℕ → Bool
low_bank bank = within 0x00 0x3F bank || within 0x80 0xBF bank

abbrev pub wram_bank : ℕ → Bool
wram_bank bank = (bank == 0x7E) || (bank == 0x7F)

-- `((bank as usize - 0x7E) * 0x10000) | off as usize`.
unfoldable pub wram_offset : ℕ → ℕ → ℕ
wram_offset bank off = bit_or ((bank - 0x7E) * 0x10000) off

-- `self.cart.read(addr).unwrap_or(self.mdr)`. An index out of bounds panics and ends the program,
-- which has no result here; the invariant `IsByteCart` of the bus keeps the cartridge valid, and a
-- valid cartridge has no such index.
unfoldable pub reading_or : Reading → ℕ → ℕ
reading_or (byte v) mdr = v
reading_or open_bus mdr = mdr
reading_or panicked mdr = mdr

module _ {P A : Type 0} where
  abbrev pub read_cart : ℕ → SysBus P A → ℕ
  read_cart addr self = reading_or (Cart.read self.cart addr) self.mdr

  unfoldable pub peek : ℕ → SysBus P A → Reading
  peek addr self =
      let bank = bank_of addr in
      let off = offset_of addr in
      if wram_bank bank
      then byte (self.wram (wram_offset bank off))
      else if low_bank bank && ltb off 0x2000
      then byte (self.wram (bit_and off 0x1FFF))
      else Cart.read self.cart addr

  unfoldable pub a_read : ℕ → SysBus P A → ℕ
  a_read addr self =
      let bank = bank_of addr in
      let off = offset_of addr in
      if low_bank bank && (leb 0x2000 off && ltb off 0x6000)
      then self.mdr
      else if wram_bank bank
      then self.wram (wram_offset bank off)
      else if low_bank bank && ltb off 0x2000
      then self.wram (bit_and off 0x1FFF)
      else read_cart addr self

  unfoldable pub set_wram : ℕ → ℕ → SysBus P A → SysBus P A
  set_wram i value self = record self { wram = update i value self.wram }

  -- `if !self.cart.write(addr, value) { self.fault(..) }`
  unfoldable pub write_cart : ℕ → ℕ → SysBus P A → SysBus P A
  write_cart addr value self =
      let (ok, cart) = Cart.write addr value self.cart in
      let self' = record self { cart = cart } in
      if ok then self' else record_fault (unmapped_write addr value) self'

  unfoldable pub a_write : ℕ → ℕ → SysBus P A → SysBus P A
  unfolding set_wram write_cart
  a_write addr value self =
      let bank = bank_of addr in
      let off = offset_of addr in
      if low_bank bank && (leb 0x2000 off && ltb off 0x6000)
      then self
      else if wram_bank bank
      then set_wram (wram_offset bank off) value self
      else if low_bank bank && ltb off 0x2000
      then set_wram (bit_and off 0x1FFF) value self
      else write_cart addr value self

  -- $2180 and $2181-$2183, the work RAM port.
  unfoldable pub step_wmadd : SysBus P A → SysBus P A
  step_wmadd self = record self { wmadd = bit_and (self.wmadd + 1) 0x1FFFF }

  unfoldable pub read_wmdata : SysBus P A → ℕ × SysBus P A
  unfolding step_wmadd
  read_wmdata self =
      let v = self.wram (bit_and self.wmadd 0x1FFFF) in
      let self' = step_wmadd self in (v, record self' { mdr = v })

  unfoldable pub write_wmdata : ℕ → SysBus P A → SysBus P A
  unfolding step_wmadd set_wram
  write_wmdata value self = step_wmadd (set_wram (bit_and self.wmadd 0x1FFFF) value self)

  unfoldable pub write_wmadd : ℕ → ℕ → SysBus P A → SysBus P A
  write_wmadd reg value self = record self {
    wmadd =
        if reg == 0x81
        then bit_or (bit_and self.wmadd 0x1FF00) value
        else if reg == 0x82
        then bit_or (bit_and self.wmadd 0x100FF) (u32 (value <<< 8))
        else bit_or (bit_and self.wmadd 0x0FFFF) (bit_and value 1 <<< 16);
  }

  -- `self.mdr = v; v`
  unfoldable pub latched : ℕ → SysBus P A → ℕ × SysBus P A
  latched v self = (v, record self { mdr = v })

module _ {P A : Type 0} (dev : Devices P A) where
  unfoldable pub read_ppu : ℕ → SysBus P A → ℕ × SysBus P A
  unfolding latched
  read_ppu reg self =
      let (v, ppu) = dev.ppu_read reg self.mdr self.ppu in latched v (record self { ppu = ppu })

  unfoldable pub write_ppu : ℕ → ℕ → SysBus P A → SysBus P A
  unfolding fault_if
  write_ppu reg value self =
      let (fault, ppu) = dev.ppu_write reg value self.ppu in
      fault_if fault (record self { ppu = ppu })

  unfoldable pub b_read : ℕ → SysBus P A → ℕ × SysBus P A
  unfolding read_ppu latched read_wmdata
  b_read b_addr self =
      let reg = u8 (bit_and b_addr 0xFF) in
      if leb reg 0x33
      then (self.mdr, self)
      else if leb reg 0x3F
      then read_ppu reg self
      else if leb reg 0x7F
      then latched (dev.cpu_read_port (bit_and reg 3) self.apu) self
      else if reg == 0x80
      then read_wmdata self
      else (self.mdr, self)

  unfoldable pub b_write : ℕ → ℕ → SysBus P A → SysBus P A
  unfolding write_ppu write_wmdata write_wmadd
  b_write b_addr value self =
      let reg = u8 (bit_and b_addr 0xFF) in
      if leb reg 0x33
      then write_ppu reg value self
      else if within 0x40 0x7F reg
      then record self { apu = dev.cpu_write_port (bit_and reg 3) value self.apu }
      else if reg == 0x80
      then write_wmdata value self
      else if within 0x81 0x83 reg
      then write_wmadd reg value self
      else self

  unfoldable pub record_apu_halt : Option ApuHalt → SysBus P A → SysBus P A
  unfolding record_fault
  record_apu_halt none self = self
  record_apu_halt (some sleep) self = self
  record_apu_halt (some stop) self = record_fault (apu_stopped (dev.apu_pc self.apu)) self
  record_apu_halt (some (test_trigger v)) self =
      record_fault (apu_test_trigger v (dev.apu_pc self.apu)) self

  unfoldable pub advance_apu_to : ℕ → SysBus P A → SysBus P A
  unfolding record_apu_halt
  advance_apu_to target_mclk self =
      if leb target_mclk self.apu_mclk_base
      then self
      else (let (halt, apu) =
            dev.advance_master_cycles (target_mclk - self.apu_mclk_base) self.apu in
          record_apu_halt halt (record self { apu_mclk_base = target_mclk; apu = apu }))

  unfoldable pub apu_catch_up : SysBus P A → SysBus P A
  unfolding advance_apu_to
  apu_catch_up self = advance_apu_to self.mclk_total self

  -- `(0xFFC0..0xFFE0).contains(&self.apu.cpu.pc)` and `(0xFFE0..=0xFFFF).contains(..)`.
  abbrev pub apu_waits_in_ipl : SysBus P A → Bool
  apu_waits_in_ipl self = leb 0xFFC0 (dev.apu_pc self.apu) && ltb (dev.apu_pc self.apu) 0xFFE0

  abbrev pub apu_in_ipl_transfer_loop : SysBus P A → Bool
  apu_in_ipl_transfer_loop self = within 0xFFE0 0xFFFF (dev.apu_pc self.apu)

  abbrev pub should_capture_ipl_cc : ℕ → ℕ → SysBus P A → Bool
  should_capture_ipl_cc port value self = (port == 0) && ((value == 0xCC) && apu_waits_in_ipl self)

  unfoldable pub step_ipl_cc : SysBus P A → SysBus P A
  unfolding record_apu_halt
  step_ipl_cc self =
      if not (apu_waits_in_ipl self) || not (dev.spc_port0 self.apu == 0xCC)
      then self
      else (let apu = dev.apu_step self.apu in
          record_apu_halt (dev.apu_halted apu) (record self { apu = apu }))

  unfoldable pub service_pending_ipl_cc : SysBus P A → SysBus P A
  unfolding step_ipl_cc
  service_pending_ipl_cc self =
      if self.apu_pending_ipl_cc
      then step_ipl_cc (record self { apu_pending_ipl_cc = false })
      else self

  -- The steps of a CPU write to $2140-$217F around the write itself.
  unfoldable pub service_before : ℕ → ℕ → SysBus P A → SysBus P A
  unfolding service_pending_ipl_cc
  service_before port value self =
      if self.apu_pending_ipl_cc && ((port == 0) && not (value == 0xCC))
      then service_pending_ipl_cc self
      else self

  unfoldable pub service_after : ℕ → ℕ → SysBus P A → SysBus P A
  unfolding service_pending_ipl_cc
  service_after port value self =
      if should_capture_ipl_cc port value self
      then record self { apu_pending_ipl_cc = true }
      else if self.apu_pending_ipl_cc && not (port == 0)
      then service_pending_ipl_cc self
      else self

  unfoldable pub end_defer : Bool → SysBus P A → SysBus P A
  unfolding apu_catch_up
  end_defer defer self =
      if defer then apu_catch_up (record self { apu_pending_ipl_transfer_strobe = false }) else self

  unfoldable pub note_strobe : ℕ → SysBus P A → SysBus P A
  note_strobe port self =
      if (port == 0) && apu_in_ipl_transfer_loop self
      then record self { apu_pending_ipl_transfer_strobe = true }
      else self

  unfoldable pub write_apu_port : ℕ → ℕ → SysBus P A → SysBus P A
  unfolding apu_catch_up service_before service_after end_defer note_strobe
  write_apu_port port value self =
      let defer =
        self.apu_pending_ipl_transfer_strobe
        && (not (port == 0) && apu_in_ipl_transfer_loop self) in
      let self1 = service_before port value (if defer then self else apu_catch_up self) in
      let self2 = record self1 { apu = dev.cpu_write_port port value self1.apu } in
      note_strobe port (end_defer defer (service_after port value self2))

  unfoldable pub read_apu_port : ℕ → SysBus P A → ℕ × SysBus P A
  unfolding apu_catch_up service_pending_ipl_cc latched
  read_apu_port port self =
      let self' = service_pending_ipl_cc (apu_catch_up self) in
      latched (dev.cpu_read_port port self'.apu) self'
