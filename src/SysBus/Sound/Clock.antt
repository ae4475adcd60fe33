-- ===== src/SysBus/Sound/Clock.antt =====
-- The bus invariant through the master clock.
use reference_workload.Base.{if-holds, ℕ, ◌+◌, ◌%◌, ◌^◌, ◌≤◌, Option, arith}
use reference_workload.Fault.{Fault}
use reference_workload.Timing.{mem_speed, mem_speed_bounds}
use reference_workload.SysBus.{SysBus}
use reference_workload.SysBus.Clock.{crosses, fire_irq, add_mclk, idle}
use reference_workload.SysBus.Sound.{SafeDevices, IsSound}

module _ {P A : Type 0} {safe : SafeDevices P A} {n : ℕ} {first : Option Fault} where
  -- The clock is raised to at least a new bound.
  pub with_clock :
      (m mclk total : ℕ) (self : SysBus P A)
      → m ≤ mclk
      → IsSound safe n first self
      → IsSound safe m first (record self { mclk_frame = mclk; mclk_total = total })
  with_clock m mclk total self c h = record {
    wram_bytes = h.wram_bytes;
    cart_bytes = h.cart_bytes;
    ppu_sound = h.ppu_sound;
    apu_sound = h.apu_sound;
    channels = h.channels;
    clock = c;
    mdr_byte = h.mdr_byte;
    wrio_byte = h.wrio_byte;
    fault_stays = h.fault_stays;
  }

  -- `k` more clocks keep any bound that they reach.
  pub add_mclk-IsSound :
      (k m : ℕ) (self : SysBus P A)
      → m ≤ n + k
      → IsSound safe n first self
      → IsSound safe m first (add_mclk k self)
  unfolding add_mclk fire_irq
  add_mclk-IsSound k m self p h =
      let kept =
        with_clock m (self.mclk_frame + k) ((self.mclk_total + k) % 2 ^ 64) self
          (omega (arith, h.clock, p)) h in
      if-holds (IsSound safe m first)
        (crosses self.mclk_frame (self.mclk_frame + k) self.irq_target_mclk) kept kept

  -- The clocks of an access to memory.
  pub access-IsSound :
      (addr : ℕ) (self : SysBus P A)
      → IsSound safe n first self
      → IsSound safe (n + 6) first (add_mclk (mem_speed addr self.fast_rom) self)
  access-IsSound addr self h =
      let fast = mem_speed_bounds addr self.fast_rom in
      add_mclk-IsSound (mem_speed addr self.fast_rom) (n + 6) self (omega (arith, fast.0)) h

  pub idle-IsSound :
      (self : SysBus P A) → IsSound safe n first self → IsSound safe (n + 6) first (idle self)
  unfolding idle
  idle-IsSound self h = add_mclk-IsSound 6 (n + 6) self (omega arith) h

  -- A smaller bound holds too.
  pub IsSound-weaken :
      (m : ℕ) (self : SysBus P A) → m ≤ n → IsSound safe n first self → IsSound safe m first self
  IsSound-weaken m self p h =
      with_clock m self.mclk_frame self.mclk_total self (omega (arith, h.clock)) h
