-- ===== src/SysBus/General/Copies.antt =====
-- What a general DMA channel does, byte by byte, from its registers at the start alone.
use reference_workload.Base.{
  ℕ, suc, ◌-◌, ◌%◌, ◌^◌, ◌<◌, ◌≤◌, ◌≡◌, ap, false, if◌then◌else◌, arith, get_or, length, has,
  update, long_address,
}
use reference_workload.Dma.{DmaChannel, unit_pattern}
use reference_workload.SysBus.{Devices, SysBus, has_fault}
use reference_workload.SysBus.Clock.{add_mclk}
use reference_workload.SysBus.General.{b_address, next_a1t, after_byte, byte_count}
use reference_workload.SysBus.General.Bytes.{stepped, after_byte_das, stepped_zero}
use reference_workload.SysBus.Ports.{a_read, a_write, b_read, b_write}

-- The two addresses of byte number `j`, and the registers before it.
abbrev pub a_side : DmaChannel → ℕ → ℕ
a_side ch j = long_address ch.a1b (stepped ch j)

abbrev pub b_side : DmaChannel → ℕ → ℕ
b_side ch j =
    b_address ch.bbad (get_or (unit_pattern ch.dmap) (j % length (unit_pattern ch.dmap)) 0)

abbrev pub at_byte : DmaChannel → ℕ → DmaChannel
at_byte ch j = record ch { a1t = stepped ch j; das = (byte_count ch - j) % 2 ^ 16 }

pub byte_count_lem :
    (ch : DmaChannel)
    → ch.das < 2 ^ 16
    → (ch.das ≡ byte_count ch % 2 ^ 16) × (byte_count ch ≤ 2 ^ 16) × (0 < byte_count ch)
unfolding byte_count
byte_count_lem ch h = ground (arith, h)

pub at_byte_start : (ch : DmaChannel) → ch.a1t < 2 ^ 16 → ch.das < 2 ^ 16 → ch ≡ at_byte ch 0
at_byte_start ch p q =
    let a = stepped_zero ch p in
    let b : ch.das ≡ (byte_count ch - 0) % 2 ^ 16 = omega (arith, byte_count_lem ch q) in
    (λ t. record ch { a1t = a t; das = b t })

next_a1t-at_byte :
    (ch : DmaChannel) (j : ℕ)
    → ch.a1t < 2 ^ 16
    → j < 2 ^ 16
    → next_a1t (at_byte ch j) ≡ stepped ch (suc j)
unfolding next_a1t stepped
next_a1t-at_byte ch j p below = ground arith

pub after_byte-at_byte :
    (ch : DmaChannel) (j : ℕ)
    → j < byte_count ch
    → ch.a1t < 2 ^ 16
    → ch.das < 2 ^ 16
    → after_byte (at_byte ch j) ≡ at_byte ch (suc j)
unfolding after_byte
after_byte-at_byte ch j below p q =
    let c = byte_count ch in
    let a = next_a1t-at_byte ch j p (omega (arith, below, byte_count_lem ch q)) in
    let b =
      after_byte_das (at_byte ch j) (c - suc j)
        (ap (λ (n : ℕ). n % 2 ^ 16) {x = c - j} {y = suc (c - suc j)} (omega (arith, below)))
        (omega (arith, below, byte_count_lem ch q)) in
    (λ t. record ch { a1t = a t; das = b t })

module _ {P A : Type 0} where
  -- The registers and the clock after a byte that did not fault.
  unfoldable pub counted : ℕ → DmaChannel → ℕ → SysBus P A → SysBus P A
  counted i ch j self = add_mclk 8 (record self { dma = update i (at_byte ch j) self.dma })

module _ {P A : Type 0} (dev : Devices P A) where
  -- Byte number `j`, from the A bus to the B bus or back.
  unfoldable pub copy_byte : DmaChannel → ℕ → SysBus P A → SysBus P A
  copy_byte ch j self =
      if has ch.dmap 0x80
      then (let (v, self') = b_read dev (b_side ch j) self in a_write (a_side ch j) v self')
      else b_write dev (b_side ch j) (a_read (a_side ch j) self) self

  -- The bytes `j` to `k - 1` were copied, and none of them faulted.
  pub data Copies (i : ℕ) (ch : DmaChannel) : ℕ → ℕ → SysBus P A → SysBus P A → Type 0 where
    finished : (j : ℕ) (self : SysBus P A) → Copies i ch j j self self
    copied :
        (j k : ℕ) (self self' : SysBus P A)
        → has_fault (copy_byte ch j self) ≡ false
        → Copies i ch (suc j) k (counted i ch (suc j) (copy_byte ch j self)) self'
        → Copies i ch j k self self'
