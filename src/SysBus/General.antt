-- ===== src/SysBus/General.antt =====
-- General DMA, `execute_dma` of crates/refwork-emu/src/bus.rs.
pub mod Bytes
pub mod Copies
pub mod Keeps
pub mod Exact
use reference_workload.Base.{
  ℕ, zero, suc, ◌+◌, ◌%◌, Bool, if◌then◌else◌, ◌==◌, has, add8, add16, sub16, bit_or, update,
  each_below, List, get_or, length, long_address, ◌^◌,
}
use reference_workload.Dma.{DmaChannel, unit_pattern}
use reference_workload.SysBus.{Devices, SysBus, has_fault}
use reference_workload.SysBus.Clock.{add_mclk}
use reference_workload.SysBus.Ports.{a_read, a_write, b_read, b_write}

-- `$002100 | bbad.wrapping_add(offset)`.
unfoldable pub b_address : ℕ → ℕ → ℕ
b_address bbad offset = bit_or 0x2100 (add8 bbad offset)

-- A bank and an offset as an A-bus address.
abbrev pub a_address : DmaChannel → ℕ
a_address ch = long_address ch.a1b ch.a1t

abbrev pub fixed : DmaChannel → Bool
fixed ch = has ch.dmap 0x08

-- The channel after one byte: the A-bus offset moves, and the count falls.
unfoldable pub next_a1t : DmaChannel → ℕ
next_a1t ch =
    if fixed ch then ch.a1t else if has ch.dmap 0x10 then sub16 ch.a1t 1 else add16 ch.a1t 1

unfoldable pub after_byte : DmaChannel → DmaChannel
unfolding next_a1t
after_byte ch = record ch { a1t = next_a1t ch; das = if ch.das == 0 then 65535 else sub16 ch.das 1 }

-- `DAS = 0` means 65536 bytes.
unfoldable pub byte_count : DmaChannel → ℕ
byte_count ch = if ch.das == 0 then 65536 else ch.das

abbrev pub set_channel : {P A : Type 0} → ℕ → (DmaChannel → DmaChannel) → SysBus P A → SysBus P A
set_channel i change self = record self { dma = update i (change (self.dma i)) self.dma }

module _ {P A : Type 0} where
  unfoldable pub count_byte : ℕ → SysBus P A → SysBus P A
  unfolding after_byte
  count_byte i self = add_mclk 8 (set_channel i after_byte self)

module _ {P A : Type 0} (dev : Devices P A) where
  -- One byte between the buses.
  unfoldable pub transfer : ℕ → ℕ → SysBus P A → SysBus P A
  transfer i b_addr self =
      let a_addr = a_address (self.dma i) in
      if has (self.dma i).dmap 0x80
      then (let (v, self') = b_read dev b_addr self in a_write a_addr v self')
      else b_write dev b_addr (a_read a_addr self) self

  -- `while remaining > 0`; `pattern` and `bbad` are those of the start. A fault ends the loop at the
  -- byte it happened at.
  unfoldable pub dma_loop : (i bbad : ℕ) → List ℕ → (remaining pos : ℕ) → SysBus P A → SysBus P A
  unfolding transfer count_byte
  dma_loop i bbad pattern zero pos self = self
  dma_loop i bbad pattern (suc remaining) pos self =
      let self' = transfer i (b_address bbad (get_or pattern pos 0)) self in
      let rest =
        dma_loop i bbad pattern remaining ((pos + 1) % length pattern) (count_byte i self') in
      if has_fault self then self else if has_fault self' then self' else rest

  unfoldable pub dma_channel : ℕ → SysBus P A → SysBus P A
  unfolding dma_loop byte_count
  dma_channel i self =
      let self' = add_mclk 8 self in
      let ch = self'.dma i in dma_loop i ch.bbad (unit_pattern ch.dmap) (byte_count ch) 0 self'

  -- `mdmaen & (1 << ch_idx)`.
  unfoldable pub execute_dma : ℕ → SysBus P A → SysBus P A
  unfolding dma_channel
  execute_dma mdmaen self =
      each_below 8 (λ i s. if has mdmaen (2 ^ i) then dma_channel i s else s) (add_mclk 12 self)
