-- ===== src/Dma.antt =====
-- The DMA channel registers, crates/refwork-emu/src/dma.rs.
pub mod Registers
pub mod Examples
use reference_workload.Base.{
  ℕ, Bool, false, ◌==◌, if◌then◌else◌, leb, u8, u16, ◌>>>◌, ◌<<<◌, bit_and, bit_or, with_low,
  update, List, [], ◌∷◌, Option, none, some,
}

pub record DmaChannel : Type 0 where
  pub dmap : ℕ  -- u8
  pub bbad : ℕ  -- u8
  pub a1t : ℕ  -- u16
  pub a1b : ℕ  -- u8
  pub das : ℕ  -- u16
  pub dasb : ℕ  -- u8
  pub a2a : ℕ  -- u16
  pub ntrl : ℕ  -- u8

pub record HdmaState : Type 0 where
  pub active : Bool
  pub do_transfer : Bool

-- `[DmaChannel; 8]` and `[HdmaState; 8]`.
abbrev pub Dma : Type 0
Dma = ℕ → DmaChannel

abbrev pub Hdma : Type 0
Hdma = ℕ → HdmaState

unfoldable pub idle_channel : DmaChannel
idle_channel = record { dmap = 0; bbad = 0; a1t = 0; a1b = 0; das = 0; dasb = 0; a2a = 0; ntrl = 0 }

abbrev pub inactive : HdmaState
inactive = record { active = false; do_transfer = false }

-- `lo | ((value as u16) << 8)` with `lo = old & 0x00FF`.
unfoldable pub with_high : ℕ → ℕ → ℕ
with_high old value = bit_or (bit_and old 0x00FF) (u16 (value <<< 8))

unfoldable pub read_channel : DmaChannel → ℕ → Option ℕ
read_channel ch reg =
    if reg == 0x0
    then some ch.dmap
    else if reg == 0x1
    then some ch.bbad
    else if reg == 0x2
    then some (u8 ch.a1t)
    else if reg == 0x3
    then some (u8 (ch.a1t >>> 8))
    else if reg == 0x4
    then some ch.a1b
    else if reg == 0x5
    then some (u8 ch.das)
    else if reg == 0x6
    then some (u8 (ch.das >>> 8))
    else if reg == 0x7
    then some ch.dasb
    else if reg == 0x8
    then some (u8 ch.a2a)
    else if reg == 0x9
    then some (u8 (ch.a2a >>> 8))
    else if reg == 0xA
    then some ch.ntrl
    else none

unfoldable pub write_channel : ℕ → ℕ → DmaChannel → DmaChannel
write_channel reg value ch =
    if reg == 0x0
    then record ch { dmap = value }
    else if reg == 0x1
    then record ch { bbad = value }
    else if reg == 0x2
    then record ch { a1t = with_low ch.a1t value }
    else if reg == 0x3
    then record ch { a1t = with_high ch.a1t value }
    else if reg == 0x4
    then record ch { a1b = value }
    else if reg == 0x5
    then record ch { das = with_low ch.das value }
    else if reg == 0x6
    then record ch { das = with_high ch.das value }
    else if reg == 0x7
    then record ch { dasb = value }
    else if reg == 0x8
    then record ch { a2a = with_low ch.a2a value }
    else if reg == 0x9
    then record ch { a2a = with_high ch.a2a value }
    else if reg == 0xA
    then record ch { ntrl = value }
    else ch

unfoldable pub read : Dma → ℕ → ℕ → Option ℕ
unfolding read_channel
read self channel reg = if leb 8 channel then none else read_channel (self channel) reg

unfoldable pub write : ℕ → ℕ → ℕ → Dma → Dma
unfolding write_channel
write channel reg value self =
    if leb 8 channel then self else update channel (write_channel reg value (self channel)) self

unfoldable pub unit_pattern : ℕ → List ℕ
unit_pattern dmap =
    let mode = bit_and dmap 0x07 in
    if mode == 0
    then 0 ∷ []
    else if mode == 1
    then 0 ∷ 1 ∷ []
    else if mode == 2
    then 0 ∷ 0 ∷ []
    else if mode == 3
    then 0 ∷ 0 ∷ 1 ∷ 1 ∷ []
    else if mode == 4
    then 0 ∷ 1 ∷ 2 ∷ 3 ∷ []
    else if mode == 5
    then 0 ∷ 1 ∷ 0 ∷ 1 ∷ []
    else if mode == 6
    then 0 ∷ 0 ∷ []
    else 0 ∷ 0 ∷ 1 ∷ 1 ∷ []
