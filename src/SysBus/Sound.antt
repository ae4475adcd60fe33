-- ===== src/SysBus/Sound.antt =====
-- An invariant of the system bus: what it stores and reads are bytes, its clock does not run back,
-- and a fault stays. It depends on some fields only, so an operation on others keeps it at once.
pub mod Memory
pub mod Clock
pub mod Ports
pub mod General
pub mod Reads
pub mod Writes
pub mod PerLine
pub mod Refines
use reference_workload.Base.{
  ℕ, ◌^◌, ◌<◌, ◌≤◌, ◌≡◌, Bool, true, false, if◌then◌else◌, List, All, Option, none, some,
}
use reference_workload.Fault.{Fault}
use reference_workload.Cart.{Cartridge}
use reference_workload.Cart.Access.{IsValid}
use reference_workload.Dma.{Dma, DmaChannel}
use reference_workload.SysBus.{Devices, SysBus}

-- Picture and audio units that keep an invariant of their own, and give bytes.
pub record SafeDevices (P A : Type 0) : Type 1 where
  pub dev : Devices P A
  pub picture : P → Type 0
  pub audio : A → Type 0
  pub ppu_write_safe :
      (reg v : ℕ) (p : P) → v < 2 ^ 8 → picture p → picture (dev.ppu_write reg v p).1
  pub ppu_read_safe :
      (reg mdr : ℕ) (p : P)
      → mdr < 2 ^ 8
      → picture p
      → ((dev.ppu_read reg mdr p).0 < 2 ^ 8) × picture (dev.ppu_read reg mdr p).1
  pub latch_safe : (dot : ℕ) (p : P) → picture p → picture (dev.latch_hv_counters dot p)
  pub port_read_safe : (port : ℕ) (a : A) → audio a → dev.cpu_read_port port a < 2 ^ 8
  pub port_write_safe :
      (port v : ℕ) (a : A) → v < 2 ^ 8 → audio a → audio (dev.cpu_write_port port v a)
  pub advance_safe : (n : ℕ) (a : A) → audio a → audio (dev.advance_master_cycles n a).1
  pub apu_step_safe : (a : A) → audio a → audio (dev.apu_step a)

abbrev pub AreBytes : Option (List ℕ) → Type 0
AreBytes none = Unit
AreBytes (some s) = All (λ v. v < 2 ^ 8) s

-- A valid cartridge, so that no access to it panics, whose memories are bytes.
pub record IsByteCart (cart : Cartridge) : Type 0 where
  pub in_bounds : IsValid cart
  pub rom_bytes : All (λ v. v < 2 ^ 8) cart.rom
  pub sram_bytes : AreBytes cart.sram

-- The registers of a channel that are one byte wide.
pub record IsByteChannel (ch : DmaChannel) : Type 0 where
  pub dmap_byte : ch.dmap < 2 ^ 8
  pub bbad_byte : ch.bbad < 2 ^ 8
  pub a1b_byte : ch.a1b < 2 ^ 8
  pub dasb_byte : ch.dasb < 2 ^ 8
  pub ntrl_byte : ch.ntrl < 2 ^ 8

-- `n` is a bound below the clock, and `first` a fault recorded before.
pub record IsSoundParts {P A : Type 0} (safe : SafeDevices P A) (n : ℕ) (first : Option Fault)
    (wram : ℕ → ℕ) (cart : Cartridge) (ppu : P) (apu : A) (dma : Dma) (mclk mdr wrio : ℕ)
    (fault : Option Fault) : Type 0 where
  pub wram_bytes : (i : ℕ) → wram i < 2 ^ 8
  pub cart_bytes : IsByteCart cart
  pub ppu_sound : safe.picture ppu
  pub apu_sound : safe.audio apu
  pub channels : (i : ℕ) → IsByteChannel (dma i)
  pub clock : n ≤ mclk
  pub mdr_byte : mdr < 2 ^ 8
  pub wrio_byte : wrio < 2 ^ 8
  pub fault_stays : (f : Fault) → first ≡ some f → fault ≡ some f

module _ {P A : Type 0} (safe : SafeDevices P A) (n : ℕ) (first : Option Fault) where
  abbrev pub IsSound : SysBus P A → Type 0
  IsSound self =
      IsSoundParts safe n first self.wram self.cart self.ppu self.apu self.dma self.mclk_frame
        self.mdr self.wrio self.fault

  -- A read that gives a byte and keeps the invariant.
  abbrev pub IsSoundRead : ℕ × SysBus P A → Type 0
  IsSoundRead result = (result.0 < 2 ^ 8) × IsSound result.1
