-- ===== src/SysBus/Sound/Ports.antt =====
-- The bus invariant through DMA's view of memory, the work RAM port and the audio port.
use reference_workload.Base.{
  if-holds, ℕ, ◌-◌, ◌^◌, ◌<◌, ◌||◌, ◌&&◌, if◌then◌else◌, ◌==◌, ltb, leb, not, Bool, true, false,
  Option, none, some, u8, bit_and,
}
use reference_workload.Fault.{Fault}
use reference_workload.Timing.{within}
use reference_workload.SysBus.{ApuHalt, sleep, stop, test_trigger, SysBus, bank_of, offset_of}
use reference_workload.SysBus.Ports.{
  low_bank, wram_bank, read_cart, a_read, a_write, step_wmadd, read_wmdata, write_wmdata,
  write_wmadd, latched, read_ppu, write_ppu, b_read, b_write, record_apu_halt, advance_apu_to,
  apu_catch_up, apu_waits_in_ipl, step_ipl_cc, service_pending_ipl_cc, service_before,
  service_after, end_defer, apu_in_ipl_transfer_loop, note_strobe, write_apu_port, read_apu_port,
  should_capture_ipl_cc,
}
use reference_workload.SysBus.Sound.{SafeDevices, IsSound, IsSoundRead}
use reference_workload.SysBus.Sound.Memory.{
  read-lt, with_units, record_fault-IsSound, fault_if-IsSound, latched-IsSound, set_wram-IsSound,
  write_cart-IsSound,
}

module _ {P A : Type 0} {safe : SafeDevices P A} {n : ℕ} {first : Option Fault} where
  pub read_cart-IsByte :
      (addr : ℕ) (self : SysBus P A) → IsSound safe n first self → read_cart addr self < 2 ^ 8
  read_cart-IsByte addr self h = read-lt self.cart addr self.mdr h.cart_bytes h.mdr_byte

  pub a_read-IsByte :
      (addr : ℕ) (self : SysBus P A) → IsSound safe n first self → a_read addr self < 2 ^ 8
  unfolding a_read
  a_read-IsByte addr self h =
      if-holds (λ v. v < 2 ^ 8)
        (low_bank (bank_of addr) && (leb 0x2000 (offset_of addr) && ltb (offset_of addr) 0x6000))
        h.mdr_byte
        (if-holds (λ v. v < 2 ^ 8) (wram_bank (bank_of addr)) (h.wram_bytes _)
          (if-holds (λ v. v < 2 ^ 8) (low_bank (bank_of addr) && ltb (offset_of addr) 0x2000)
            (h.wram_bytes _) (read_cart-IsByte addr self h)))

  pub a_write-IsSound :
      (addr v : ℕ) (self : SysBus P A)
      → v < 2 ^ 8
      → IsSound safe n first self
      → IsSound safe n first (a_write addr v self)
  unfolding a_write
  a_write-IsSound addr v self p h =
      if-holds (IsSound safe n first)
        (low_bank (bank_of addr) && (leb 0x2000 (offset_of addr) && ltb (offset_of addr) 0x6000)) h
        (if-holds (IsSound safe n first) (wram_bank (bank_of addr)) (set_wram-IsSound _ v self p h)
          (if-holds (IsSound safe n first) (low_bank (bank_of addr) && ltb (offset_of addr) 0x2000)
            (set_wram-IsSound _ v self p h) (write_cart-IsSound addr v self p h)))

  pub read_wmdata-IsSound :
      (self : SysBus P A) → IsSound safe n first self → IsSoundRead safe n first (read_wmdata self)
  unfolding read_wmdata step_wmadd latched
  read_wmdata-IsSound self h = latched-IsSound _ (step_wmadd self) (h.wram_bytes _) h

  pub write_wmdata-IsSound :
      (v : ℕ) (self : SysBus P A)
      → v < 2 ^ 8
      → IsSound safe n first self
      → IsSound safe n first (write_wmdata v self)
  unfolding write_wmdata step_wmadd
  write_wmdata-IsSound v self p h = set_wram-IsSound (bit_and self.wmadd 0x1FFFF) v self p h

  pub write_wmadd-IsSound :
      (reg v : ℕ) (self : SysBus P A)
      → IsSound safe n first self
      → IsSound safe n first (write_wmadd reg v self)
  unfolding write_wmadd
  write_wmadd-IsSound reg v self h = h

  pub with_ppu :
      (ppu : P) (self : SysBus P A)
      → safe.picture ppu
      → IsSound safe n first self
      → IsSound safe n first (record self { ppu = ppu })
  with_ppu ppu self p h = with_units ppu self.apu self p h.apu_sound h

  pub with_apu :
      (apu : A) (self : SysBus P A)
      → safe.audio apu
      → IsSound safe n first self
      → IsSound safe n first (record self { apu = apu })
  with_apu apu self a h = with_units self.ppu apu self h.ppu_sound a h

  pub read_ppu-IsSound :
      (reg : ℕ) (self : SysBus P A)
      → IsSound safe n first self
      → IsSoundRead safe n first (read_ppu safe.dev reg self)
  unfolding read_ppu
  read_ppu-IsSound reg self h =
      let (p, k) = safe.ppu_read_safe reg self.mdr self.ppu h.mdr_byte h.ppu_sound in
      latched-IsSound _ (record self { ppu = (safe.dev.ppu_read reg self.mdr self.ppu).1 }) p
        (with_ppu _ self k h)

  pub write_ppu-IsSound :
      (reg v : ℕ) (self : SysBus P A)
      → v < 2 ^ 8
      → IsSound safe n first self
      → IsSound safe n first (write_ppu safe.dev reg v self)
  unfolding write_ppu
  write_ppu-IsSound reg v self p h =
      fault_if-IsSound _ (record self { ppu = (safe.dev.ppu_write reg v self.ppu).1 })
        (with_ppu _ self (safe.ppu_write_safe reg v self.ppu p h.ppu_sound) h)

  pub read_port-IsSound :
      (port : ℕ) (self : SysBus P A)
      → IsSound safe n first self
      → IsSoundRead safe n first (latched (safe.dev.cpu_read_port port self.apu) self)
  read_port-IsSound port self h =
      latched-IsSound _ self (safe.port_read_safe port self.apu h.apu_sound) h

  pub b_read-IsSound :
      (addr : ℕ) (self : SysBus P A)
      → IsSound safe n first self
      → IsSoundRead safe n first (b_read safe.dev addr self)
  unfolding b_read
  b_read-IsSound addr self h =
      let reg = u8 (bit_and addr 0xFF) in
      if-holds (IsSoundRead safe n first) (leb reg 0x33) (h.mdr_byte, h)
        (if-holds (IsSoundRead safe n first) (leb reg 0x3F) (read_ppu-IsSound reg self h) (
          if-holds (IsSoundRead safe n first) (leb reg 0x7F) (read_port-IsSound _ self h) (
            if-holds (IsSoundRead safe n first) (reg == 0x80) (read_wmdata-IsSound self h)
              (h.mdr_byte, h))))

  pub write_port-IsSound :
      (port v : ℕ) (self : SysBus P A)
      → v < 2 ^ 8
      → IsSound safe n first self
      → IsSound safe n first (record self { apu = safe.dev.cpu_write_port port v self.apu })
  write_port-IsSound port v self p h =
      with_apu _ self (safe.port_write_safe port v self.apu p h.apu_sound) h

  pub b_write-IsSound :
      (addr v : ℕ) (self : SysBus P A)
      → v < 2 ^ 8
      → IsSound safe n first self
      → IsSound safe n first (b_write safe.dev addr v self)
  unfolding b_write
  b_write-IsSound addr v self p h =
      let reg = u8 (bit_and addr 0xFF) in
      if-holds (IsSound safe n first) (leb reg 0x33) (write_ppu-IsSound reg v self p h) (
        if-holds (IsSound safe n first) (within 0x40 0x7F reg) (write_port-IsSound _ v self p h) (
          if-holds (IsSound safe n first) (reg == 0x80) (write_wmdata-IsSound v self p h) (
            if-holds (IsSound safe n first) (within 0x81 0x83 reg)
              (write_wmadd-IsSound reg v self h) h)))

  record_apu_halt-IsSound :
      (halt : Option ApuHalt) (self : SysBus P A)
      → IsSound safe n first self
      → IsSound safe n first (record_apu_halt safe.dev halt self)
  unfolding record_apu_halt
  record_apu_halt-IsSound none self h = h
  record_apu_halt-IsSound (some sleep) self h = h
  record_apu_halt-IsSound (some stop) self h = record_fault-IsSound _ self h
  record_apu_halt-IsSound (some (test_trigger v)) self h = record_fault-IsSound _ self h

  pub apu_catch_up-IsSound :
      (self : SysBus P A)
      → IsSound safe n first self
      → IsSound safe n first (apu_catch_up safe.dev self)
  unfolding apu_catch_up advance_apu_to
  apu_catch_up-IsSound self h =
      let after = safe.dev.advance_master_cycles (self.mclk_total - self.apu_mclk_base) self.apu in
      if-holds (IsSound safe n first) (leb self.mclk_total self.apu_mclk_base) h (
        record_apu_halt-IsSound after.0
          (record self { apu_mclk_base = self.mclk_total; apu = after.1 })
          (with_apu after.1 self (safe.advance_safe _ self.apu h.apu_sound) h))

  service_pending_ipl_cc-IsSound :
      (self : SysBus P A)
      → IsSound safe n first self
      → IsSound safe n first (service_pending_ipl_cc safe.dev self)
  unfolding service_pending_ipl_cc step_ipl_cc
  service_pending_ipl_cc-IsSound self h =
      let apu = safe.dev.apu_step self.apu in
      if-holds (IsSound safe n first) self.apu_pending_ipl_cc
        (if-holds (IsSound safe n first)
          (not (apu_waits_in_ipl safe.dev self) || not (safe.dev.spc_port0 self.apu == 0xCC)) h
          (record_apu_halt-IsSound _ (record self { apu_pending_ipl_cc = false; apu = apu })
            (with_apu apu self (safe.apu_step_safe self.apu h.apu_sound) h)))
        h

  pub read_apu_port-IsSound :
      (port : ℕ) (self : SysBus P A)
      → IsSound safe n first self
      → IsSoundRead safe n first (read_apu_port safe.dev port self)
  unfolding read_apu_port
  read_apu_port-IsSound port self h =
      let caught_up = apu_catch_up safe.dev self in
      read_port-IsSound port (service_pending_ipl_cc safe.dev caught_up)
        (service_pending_ipl_cc-IsSound caught_up (apu_catch_up-IsSound self h))

  service_before-IsSound :
      (port v : ℕ) (self : SysBus P A)
      → IsSound safe n first self
      → IsSound safe n first (service_before safe.dev port v self)
  unfolding service_before
  service_before-IsSound port v self h =
      if-holds (IsSound safe n first) (self.apu_pending_ipl_cc && ((port == 0) && not (v == 0xCC)))
        (service_pending_ipl_cc-IsSound self h) h

  service_after-IsSound :
      (port v : ℕ) (self : SysBus P A)
      → IsSound safe n first self
      → IsSound safe n first (service_after safe.dev port v self)
  unfolding service_after
  service_after-IsSound port v self h =
      if-holds (IsSound safe n first) (should_capture_ipl_cc safe.dev port v self) h (
        if-holds (IsSound safe n first) (self.apu_pending_ipl_cc && not (port == 0))
          (service_pending_ipl_cc-IsSound self h) h)

  end_defer-IsSound :
      (defer : Bool) (self : SysBus P A)
      → IsSound safe n first self
      → IsSound safe n first (end_defer safe.dev defer self)
  unfolding end_defer
  end_defer-IsSound true self h =
      apu_catch_up-IsSound (record self { apu_pending_ipl_transfer_strobe = false }) h
  end_defer-IsSound false self h = h

  note_strobe-IsSound :
      (port : ℕ) (self : SysBus P A)
      → IsSound safe n first self
      → IsSound safe n first (note_strobe safe.dev port self)
  unfolding note_strobe
  note_strobe-IsSound port self h =
      if-holds (IsSound safe n first) ((port == 0) && apu_in_ipl_transfer_loop safe.dev self) h h

  pub write_apu_port-IsSound :
      (port v : ℕ) (self : SysBus P A)
      → v < 2 ^ 8
      → IsSound safe n first self
      → IsSound safe n first (write_apu_port safe.dev port v self)
  unfolding write_apu_port
  write_apu_port-IsSound port v self p h =
      let defer =
        self.apu_pending_ipl_transfer_strobe
        && (not (port == 0) && apu_in_ipl_transfer_loop safe.dev self) in
      let start = if defer then self else apu_catch_up safe.dev self in
      let before = service_before safe.dev port v start in
      let written = record before { apu = safe.dev.cpu_write_port port v before.apu } in
      let after = service_after safe.dev port v written in
      note_strobe-IsSound port (end_defer safe.dev defer after) (
        end_defer-IsSound defer after (
          service_after-IsSound port v written (
            write_port-IsSound port v before p (
              service_before-IsSound port v start
                (if-holds (IsSound safe n first) defer h (apu_catch_up-IsSound self h))))))
