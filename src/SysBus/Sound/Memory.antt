-- ===== src/SysBus/Sound/Memory.antt =====
-- Writes to the parts that the bus invariant reads.
use reference_workload.Base.{
  if-holds, ℕ, zero, suc, ◌^◌, ◌<◌, ◌≡◌, Bool, arith, List, [], ◌∷◌, All, set, Option, none, some,
  update-All,
}
use reference_workload.Fault.{Fault}
use reference_workload.Cart
use reference_workload.Cart.{
  Cartridge, Reading, open_bus, panicked, byte, in_rom, in_sram, index, read_sram, write_sram,
  sram_offset,
}
use reference_workload.Cart.Access.{write-IsValid}
use reference_workload.Dma.{DmaChannel}
use reference_workload.SysBus.{SysBus, record_fault, first_fault, fault_if}
use reference_workload.SysBus.Ports.{reading_or, latched, set_wram, write_cart}
use reference_workload.SysBus.General.{set_channel}
use reference_workload.SysBus.Sound.{
  SafeDevices, AreBytes, IsByteCart, IsByteChannel, IsSound, IsSoundRead,
}

-- The cartridge gives bytes, or the data latch.
index-lt :
    (bytes : List ℕ) (i mdr : ℕ)
    → All (λ v. v < 2 ^ 8) bytes
    → mdr < 2 ^ 8
    → reading_or (index bytes i) mdr < 2 ^ 8
unfolding index reading_or
index-lt [] i mdr h m = m
index-lt (x ∷ xs) zero mdr (p, h) m = p
index-lt (x ∷ xs) (suc i) mdr (p, h) m = index-lt xs i mdr h m

read_sram-lt :
    (sram : Option (List ℕ)) (addr mdr : ℕ)
    → AreBytes sram
    → mdr < 2 ^ 8
    → reading_or (read_sram sram addr) mdr < 2 ^ 8
unfolding read_sram reading_or
read_sram-lt none addr mdr h m = m
read_sram-lt (some s) addr mdr h m = index-lt s (sram_offset s addr) mdr h m

pub read-lt :
    (cart : Cartridge) (addr mdr : ℕ)
    → IsByteCart cart
    → mdr < 2 ^ 8
    → reading_or (Cart.read cart addr) mdr < 2 ^ 8
unfolding Cart.read reading_or
read-lt cart addr mdr h m =
    if-holds (λ r. reading_or r mdr < 2 ^ 8) (in_rom addr) (index-lt cart.rom _ mdr h.rom_bytes m)
      (if-holds (λ r. reading_or r mdr < 2 ^ 8) (in_sram addr)
        (read_sram-lt cart.sram addr mdr h.sram_bytes m) m)

set-All :
    (bytes : List ℕ) (i v : ℕ)
    → v < 2 ^ 8
    → All (λ u. u < 2 ^ 8) bytes
    → All (λ u. u < 2 ^ 8) (set bytes i v)
set-All [] i v p h = h
set-All (x ∷ xs) zero v p (q, h) = (p, h)
set-All (x ∷ xs) (suc i) v p (q, h) = (q, set-All xs i v p h)

write_sram-AreBytes :
    (sram : Option (List ℕ)) (addr v : ℕ)
    → v < 2 ^ 8
    → AreBytes sram
    → AreBytes (write_sram sram addr v).1
unfolding write_sram
write_sram-AreBytes none addr v p h = h
write_sram-AreBytes (some s) addr v p h = set-All s (sram_offset s addr) v p h

write-IsByteCart :
    (addr v : ℕ) (cart : Cartridge)
    → v < 2 ^ 8
    → IsByteCart cart
    → IsByteCart (Cart.write addr v cart).1
unfolding Cart.write
write-IsByteCart addr v cart p h = record {
  in_bounds = write-IsValid addr v cart h.in_bounds;
  rom_bytes =
      if-holds (λ (u : Bool × Cartridge). All (λ b. b < 2 ^ 8) u.1.rom) (in_sram addr) h.rom_bytes
        h.rom_bytes;
  sram_bytes =
      if-holds (λ (u : Bool × Cartridge). AreBytes u.1.sram) (in_sram addr)
        (write_sram-AreBytes cart.sram addr v p h.sram_bytes) h.sram_bytes;
}

first_fault-stays :
    (f : Fault) (fault : Option Fault) (g : Fault) → fault ≡ some g → first_fault f fault ≡ some g
unfolding first_fault
first_fault-stays f none g e = absurd (ground (arith, e))
first_fault-stays f (some old) g e = e

module _ {P A : Type 0} {safe : SafeDevices P A} {n : ℕ} {first : Option Fault} where
  pub with_wram :
      (wram : ℕ → ℕ) (self : SysBus P A)
      → ((i : ℕ) → wram i < 2 ^ 8)
      → IsSound safe n first self
      → IsSound safe n first (record self { wram = wram })
  with_wram wram self b h = record {
    wram_bytes = b;
    cart_bytes = h.cart_bytes;
    ppu_sound = h.ppu_sound;
    apu_sound = h.apu_sound;
    channels = h.channels;
    clock = h.clock;
    mdr_byte = h.mdr_byte;
    wrio_byte = h.wrio_byte;
    fault_stays = h.fault_stays;
  }

  pub with_cart :
      (cart : Cartridge) (self : SysBus P A)
      → IsByteCart cart
      → IsSound safe n first self
      → IsSound safe n first (record self { cart = cart })
  with_cart cart self c h = record {
    wram_bytes = h.wram_bytes;
    cart_bytes = c;
    ppu_sound = h.ppu_sound;
    apu_sound = h.apu_sound;
    channels = h.channels;
    clock = h.clock;
    mdr_byte = h.mdr_byte;
    wrio_byte = h.wrio_byte;
    fault_stays = h.fault_stays;
  }

  pub with_units :
      (ppu : P) (apu : A) (self : SysBus P A)
      → safe.picture ppu
      → safe.audio apu
      → IsSound safe n first self
      → IsSound safe n first (record self { ppu = ppu; apu = apu })
  with_units ppu apu self p a h = record {
    wram_bytes = h.wram_bytes;
    cart_bytes = h.cart_bytes;
    ppu_sound = p;
    apu_sound = a;
    channels = h.channels;
    clock = h.clock;
    mdr_byte = h.mdr_byte;
    wrio_byte = h.wrio_byte;
    fault_stays = h.fault_stays;
  }

  pub with_channels :
      (dma : ℕ → DmaChannel) (self : SysBus P A)
      → ((i : ℕ) → IsByteChannel (dma i))
      → IsSound safe n first self
      → IsSound safe n first (record self { dma = dma })
  with_channels dma self d h = record {
    wram_bytes = h.wram_bytes;
    cart_bytes = h.cart_bytes;
    ppu_sound = h.ppu_sound;
    apu_sound = h.apu_sound;
    channels = d;
    clock = h.clock;
    mdr_byte = h.mdr_byte;
    wrio_byte = h.wrio_byte;
    fault_stays = h.fault_stays;
  }

  pub with_latches :
      (mdr wrio : ℕ) (self : SysBus P A)
      → mdr < 2 ^ 8
      → wrio < 2 ^ 8
      → IsSound safe n first self
      → IsSound safe n first (record self { mdr = mdr; wrio = wrio })
  with_latches mdr wrio self p q h = record {
    wram_bytes = h.wram_bytes;
    cart_bytes = h.cart_bytes;
    ppu_sound = h.ppu_sound;
    apu_sound = h.apu_sound;
    channels = h.channels;
    clock = h.clock;
    mdr_byte = p;
    wrio_byte = q;
    fault_stays = h.fault_stays;
  }

  pub record_fault-IsSound :
      (f : Fault) (self : SysBus P A)
      → IsSound safe n first self
      → IsSound safe n first (record_fault f self)
  unfolding record_fault
  record_fault-IsSound f self h = record {
    wram_bytes = h.wram_bytes;
    cart_bytes = h.cart_bytes;
    ppu_sound = h.ppu_sound;
    apu_sound = h.apu_sound;
    channels = h.channels;
    clock = h.clock;
    mdr_byte = h.mdr_byte;
    wrio_byte = h.wrio_byte;
    fault_stays = λ g e. first_fault-stays f self.fault g (h.fault_stays g e);
  }

  pub fault_if-IsSound :
      (f : Option Fault) (self : SysBus P A)
      → IsSound safe n first self
      → IsSound safe n first (fault_if f self)
  unfolding fault_if
  fault_if-IsSound none self h = h
  fault_if-IsSound (some f) self h = record_fault-IsSound f self h

  pub latched-IsSound :
      (v : ℕ) (self : SysBus P A)
      → v < 2 ^ 8
      → IsSound safe n first self
      → IsSoundRead safe n first (latched v self)
  unfolding latched
  latched-IsSound v self p h = (p, with_latches v self.wrio self p h.wrio_byte h)

  pub set_wram-IsSound :
      (i v : ℕ) (self : SysBus P A)
      → v < 2 ^ 8
      → IsSound safe n first self
      → IsSound safe n first (set_wram i v self)
  unfolding set_wram
  set_wram-IsSound i v self p h =
      with_wram _ self (update-All (λ u. u < 2 ^ 8) i v self.wram p h.wram_bytes) h

  pub write_cart-IsSound :
      (addr v : ℕ) (self : SysBus P A)
      → v < 2 ^ 8
      → IsSound safe n first self
      → IsSound safe n first (write_cart addr v self)
  unfolding write_cart
  write_cart-IsSound addr v self p h =
      let kept =
        with_cart (Cart.write addr v self.cart).1 self
          (write-IsByteCart addr v self.cart p h.cart_bytes) h in
      if-holds (IsSound safe n first) (Cart.write addr v self.cart).0 kept
        (record_fault-IsSound _ _ kept)

  pub set_channel-IsSound :
      (i : ℕ) (change : DmaChannel → DmaChannel) (self : SysBus P A)
      → ((ch : DmaChannel) → IsByteChannel ch → IsByteChannel (change ch))
      → IsSound safe n first self
      → IsSound safe n first (set_channel i change self)
  set_channel-IsSound i change self c h =
      with_channels _ self
        (update-All IsByteChannel i _ self.dma (c (self.dma i) (h.channels i)) h.channels) h
