-- ===== src/SysBus/WorkRam.antt =====
-- The first 8 KiB of bank 0 are memory: what the CPU writes there stays until it writes again.
use reference_workload.Base.{
  ℕ, ◌+◌, ◌-◌, ◌<◌, ◌≡◌, refl, ap, ◌∙◌, false, not, ◌||◌, ◌==◌, if-holds, if_true, if_false, leb,
  arith, bit_and, u8, ◌>>>◌, update, update_hit, update_miss, Option, none, some,
}
use reference_workload.Base.Bits.{bit_and-ones}
use reference_workload.Cpu.Machine.Ram.{IsRam}
use reference_workload.Timing.{within, mem_speed}
use reference_workload.SysBus.{
  ApuHalt, sleep, stop, test_trigger, Devices, SysBus, record_fault, bank_of, offset_of,
}
use reference_workload.SysBus.Clock.{crosses, fire_irq, add_mclk, idle}
use reference_workload.SysBus.Ports.{
  low_bank, wram_bank, set_wram, step_wmadd, read_wmdata, latched, read_ppu, record_apu_halt,
  advance_apu_to, apu_catch_up, apu_waits_in_ipl, step_ipl_cc, service_pending_ipl_cc,
  read_apu_port,
}
use reference_workload.SysBus.Reads.{
  read_joypad, rdnmi, timeup, read_math, read_auto_joypad, read_dma, read_rom, latch_counters,
  read_picture, hvbjoy, read_b_bus, read_state, read_cpu_io, read_low_bank, read_at, read,
}
use reference_workload.SysBus.Run.{sys_bus}
use reference_workload.SysBus.Writes.{write_low_bank, write_at, write}

-- An address of the region is its own bank-0 offset.
bank_zero : (addr : ℕ) → addr < 0x2000 → bank_of addr ≡ 0
bank_zero addr h = omega (arith, bit_and-ones 8 (addr >>> 16), h)

own_offset : (addr : ℕ) → addr < 0x2000 → offset_of addr ≡ addr
own_offset addr h = omega (arith, bit_and-ones 16 addr, h)

own_index : (addr : ℕ) → addr < 0x2000 → bit_and (offset_of addr) 0x1FFF ≡ addr
own_index addr h = omega (arith, bit_and-ones 13 (offset_of addr), own_offset addr h, h)

module _ {P A : Type 0} where
  add_mclk-wram : (k : ℕ) (self : SysBus P A) → (add_mclk k self).wram ≡ self.wram
  unfolding add_mclk fire_irq
  add_mclk-wram k self =
      if-holds (λ (s : SysBus P A). s.wram ≡ self.wram)
        (crosses self.mclk_frame (self.mclk_frame + k) self.irq_target_mclk) refl refl

  -- The work RAM is `w`, after a read too.
  record Holds (w : ℕ → ℕ) (self : SysBus P A) : Type 0 where
    same : self.wram ≡ w

  record HoldsRead (w : ℕ → ℕ) (result : ℕ × SysBus P A) : Type 0 where
    same : result.1.wram ≡ w

  still : {w : ℕ → ℕ} (self : SysBus P A) → self.wram ≡ w → Holds w self
  still self e = record { same = e }

  gives : {w : ℕ → ℕ} (result : ℕ × SysBus P A) → result.1.wram ≡ w → HoldsRead w result
  gives result e = record { same = e }

  read_math-Holds :
      (w : ℕ → ℕ) (off : ℕ) (self : SysBus P A) → Holds w self → HoldsRead w (read_math off self)
  unfolding read_math latched
  read_math-Holds w off self h = if-holds (HoldsRead w) (off == 0x4213) (gives _ h.same) (
      if-holds (HoldsRead w) (off == 0x4214) (gives _ h.same) (
        if-holds (HoldsRead w) (off == 0x4215) (gives _ h.same)
          (if-holds (HoldsRead w) (off == 0x4216) (gives _ h.same) (gives _ h.same))))

  read_auto_joypad-Holds :
      (w : ℕ → ℕ) (off : ℕ) (self : SysBus P A)
      → Holds w self
      → HoldsRead w (read_auto_joypad off self)
  unfolding read_auto_joypad latched
  read_auto_joypad-Holds w off self h =
      if-holds (HoldsRead w) (off == 0x4218) (gives _ h.same)
        (if-holds (HoldsRead w) (off == 0x4219) (gives _ h.same) (gives _ h.same))

module _ {P A : Type 0} (dev : Devices P A) where
  record_apu_halt-Holds :
      (w : ℕ → ℕ) (halt : Option ApuHalt) (self : SysBus P A)
      → Holds w self
      → Holds w (record_apu_halt dev halt self)
  unfolding record_apu_halt record_fault
  record_apu_halt-Holds w none self h = still _ h.same
  record_apu_halt-Holds w (some sleep) self h = still _ h.same
  record_apu_halt-Holds w (some stop) self h = still _ h.same
  record_apu_halt-Holds w (some (test_trigger v)) self h = still _ h.same

  apu_catch_up-Holds :
      (w : ℕ → ℕ) (self : SysBus P A) → Holds w self → Holds w (apu_catch_up dev self)
  unfolding apu_catch_up advance_apu_to
  apu_catch_up-Holds w self h =
      let after = dev.advance_master_cycles (self.mclk_total - self.apu_mclk_base) self.apu in
      if-holds (Holds w) (leb self.mclk_total self.apu_mclk_base) h (
        record_apu_halt-Holds w after.0
          (record self { apu_mclk_base = self.mclk_total; apu = after.1 }) (still _ h.same))

  service-Holds :
      (w : ℕ → ℕ) (self : SysBus P A) → Holds w self → Holds w (service_pending_ipl_cc dev self)
  unfolding service_pending_ipl_cc step_ipl_cc
  service-Holds w self h =
      let apu = dev.apu_step self.apu in
      if-holds (Holds w) self.apu_pending_ipl_cc
        (if-holds (Holds w)
          (not (apu_waits_in_ipl dev self) || not (dev.spc_port0 self.apu == 0xCC)) (still _ h.same)
          (record_apu_halt-Holds w (dev.apu_halted apu)
            (record self { apu_pending_ipl_cc = false; apu = apu }) (still _ h.same)))
        h

  read_picture-Holds :
      (w : ℕ → ℕ) (reg : ℕ) (self : SysBus P A)
      → Holds w self
      → HoldsRead w (read_picture dev reg self)
  unfolding read_picture read_ppu latch_counters latched
  read_picture-Holds w reg self h = if-holds (HoldsRead w) (leb reg 0x33) (gives _ h.same) (
      gives _ (
        if-holds (λ (b : SysBus P A). b.wram ≡ w) (reg == 0x37) {x = latch_counters dev self}
          {y = self} h.same h.same))

  read_b_bus-Holds :
      (w : ℕ → ℕ) (off : ℕ) (self : SysBus P A)
      → Holds w self
      → HoldsRead w (read_b_bus dev off self)
  unfolding read_b_bus read_apu_port latched read_wmdata step_wmadd
  read_b_bus-Holds w off self h =
      if-holds (HoldsRead w) (within 0x2100 0x213F off)
        (read_picture-Holds w (u8 (off - 0x2100)) self h)
        (if-holds (HoldsRead w) (within 0x2140 0x217F off)
          (gives _ (service-Holds w (apu_catch_up dev self) (apu_catch_up-Holds w self h)).same)
          (if-holds (HoldsRead w) (off == 0x2180) (gives _ h.same) (gives _ h.same)))

  read_state-Holds :
      (w : ℕ → ℕ) (off : ℕ) (self : SysBus P A)
      → Holds w self
      → HoldsRead w (read_state dev off self)
  unfolding read_state hvbjoy latched
  read_state-Holds w off self h = if-holds (HoldsRead w) (off == 0x4212) (gives _ h.same) (
      if-holds (HoldsRead w) (within 0x4213 0x4217 off) (read_math-Holds w off self h) (
        if-holds (HoldsRead w) (within 0x4218 0x421F off) (read_auto_joypad-Holds w off self h)
          (gives _ h.same)))

  read_cpu_io-Holds :
      (w : ℕ → ℕ) (off : ℕ) (self : SysBus P A)
      → Holds w self
      → HoldsRead w (read_cpu_io dev off self)
  unfolding read_cpu_io read_joypad rdnmi timeup latched
  read_cpu_io-Holds w off self h = if-holds (HoldsRead w) (off == 0x4016) (gives _ h.same) (
      if-holds (HoldsRead w) (off == 0x4017) (gives _ h.same) (
        if-holds (HoldsRead w) (off == 0x4210) (gives _ h.same) (
          if-holds (HoldsRead w) (off == 0x4211) (gives _ h.same) (read_state-Holds w off self h))))

  read_low_bank-Holds :
      (w : ℕ → ℕ) (addr off : ℕ) (self : SysBus P A)
      → Holds w self
      → HoldsRead w (read_low_bank dev addr off self)
  unfolding read_low_bank read_dma read_rom latched
  read_low_bank-Holds w addr off self h = if-holds (HoldsRead w) (leb off 0x1FFF) (gives _ h.same) (
      if-holds (HoldsRead w) (leb off 0x21FF) (read_b_bus-Holds w off self h) (
        if-holds (HoldsRead w) (leb off 0x42FF) (read_cpu_io-Holds w off self h) (
          if-holds (HoldsRead w) (leb off 0x437F) (gives _ h.same)
            (if-holds (HoldsRead w) (leb 0x8000 off) (gives _ h.same) (gives _ h.same)))))

  read-Holds : (addr : ℕ) (self : SysBus P A) → (read dev addr self).1.wram ≡ self.wram
  unfolding read read_at read_rom latched
  read-Holds addr self =
      let start = add_mclk (mem_speed addr self.fast_rom) self in
      let h = add_mclk-wram (mem_speed addr self.fast_rom) self in
      (if-holds (HoldsRead self.wram) (wram_bank (bank_of addr)) (gives _ h) (
        if-holds (HoldsRead self.wram) (low_bank (bank_of addr))
          (read_low_bank-Holds self.wram addr (offset_of addr) start (still start h))
          (gives _ h))).same

  -- A read and a write in the region, the clock apart.
  read_at-ram :
      (addr : ℕ) (self : SysBus P A)
      → addr < 0x2000
      → read_at dev addr self ≡ latched (self.wram addr) self
  unfolding read_at read_low_bank
  read_at-ram addr self h =
      if_false (wram_bank (bank_of addr)) _ _ (ground (arith, bank_zero addr h))
      ∙ if_true (low_bank (bank_of addr)) _ _ (ground (arith, bank_zero addr h))
      ∙ if_true (leb (offset_of addr) 0x1FFF) _ _ (ground (arith, own_offset addr h, h))
      ∙ ap (λ (i : ℕ). latched (self.wram i) self) (own_index addr h)

  write_at-ram :
      (addr v : ℕ) (self : SysBus P A)
      → addr < 0x2000
      → write_at dev addr v self ≡ set_wram addr v self
  unfolding write_at write_low_bank
  write_at-ram addr v self h =
      if_false (wram_bank (bank_of addr)) _ _ (ground (arith, bank_zero addr h))
      ∙ if_true (low_bank (bank_of addr)) _ _ (ground (arith, bank_zero addr h))
      ∙ if_true (leb (offset_of addr) 0x1FFF) _ _ (ground (arith, own_offset addr h, h))
      ∙ ap (λ (i : ℕ). set_wram i v self) (own_index addr h)

  write-ram :
      (addr v : ℕ) (self : SysBus P A)
      → addr < 0x2000
      → (write dev addr v self).wram ≡ update addr v self.wram
  unfolding write set_wram
  write-ram addr v self h =
      let k = mem_speed addr self.fast_rom in
      ap (λ (s : SysBus P A). s.wram) (write_at-ram addr v (add_mclk k self) h)
      ∙ ap (update addr v) (add_mclk-wram k self)

  -- On the system bus the addresses $000000-$001FFF behave as memory, whatever the picture and audio
  -- units do: a read gives the byte last written there, a write changes that byte and no other of
  -- the region, and no read anywhere, idle cycle included, changes one. So the theorems about pushes,
  -- pulls and interrupt frames on a memory hold on the system bus for a stack there.
  pub sys_bus-IsRam : IsRam (sys_bus dev) (λ addr self. self.wram addr) (λ addr. addr < 0x2000)
  unfolding sys_bus read latched idle
  sys_bus-IsRam = record {
    read_value = λ addr b h.
        let start = add_mclk (mem_speed addr b.fast_rom) b in
        ap (λ (u : ℕ × SysBus P A). u.0) (read_at-ram addr start h)
        ∙ ap (λ w. w addr) (add_mclk-wram (mem_speed addr b.fast_rom) b);
    read_keeps = λ addr q b h. ap (λ w. w q) (read-Holds addr b);
    write_hit = λ addr v b h p. ap (λ w. w addr) (write-ram addr v b h) ∙ update_hit addr v b.wram;
    write_miss =
        λ addr q v b h k n. ap (λ w. w q) (write-ram addr v b h) ∙ update_miss addr q v b.wram n;
    idle_keeps = λ q b h. ap (λ w. w q) (add_mclk-wram 6 b);
  }
