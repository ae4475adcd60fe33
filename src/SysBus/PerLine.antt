-- ===== src/SysBus/PerLine.antt =====
-- HDMA and the scanline hook, crates/refwork-emu/src/bus.rs.
pub mod Lines
pub mod Pointer
pub mod Count
pub mod Entry
use reference_workload.Base.{
  ℕ, ◌+◌, ◌^◌, Bool, true, false, not, ◌&&◌, if◌then◌else◌, ◌==◌, has, add16, sub8, bit_and, bit_or,
  update, each_below, List, [], ◌∷◌, join, long_address,
}
use reference_workload.Dma.{DmaChannel, HdmaState, inactive, unit_pattern}
use reference_workload.Joypad.{auto_read}
use reference_workload.SysBus.{Devices, SysBus, has_fault}
use reference_workload.SysBus.Clock.{recompute_irq_target}
use reference_workload.SysBus.Ports.{a_read, b_write}
use reference_workload.SysBus.General.{b_address, set_channel}

abbrev pub indirect : DmaChannel → Bool
indirect ch = has ch.dmap 0x40

abbrev pub pointer : DmaChannel → ℕ
pointer ch = if indirect ch then long_address ch.dasb ch.das else long_address ch.a1b ch.a2a

module _ {P A : Type 0} where
  -- The data address of an indirect entry, from the table into DAS.
  unfoldable pub load_indirect : ℕ → ℕ → SysBus P A → SysBus P A
  load_indirect i table_bank self =
      let a2a = (self.dma i).a2a in
      let lo = a_read (long_address table_bank a2a) self in
      let hi = a_read (long_address table_bank (add16 a2a 1)) self in
      set_channel i (λ ch. record ch { a2a = add16 a2a 2; das = join lo hi }) self

  -- The count byte of the next entry, in NTRL, with A2A past it.
  unfoldable pub load_count : ℕ → ℕ → SysBus P A → SysBus P A
  load_count i table_bank self =
      let a2a = (self.dma i).a2a in
      let ntrl = a_read (long_address table_bank a2a) self in
      set_channel i (λ ch. record ch { a2a = add16 a2a 1; ntrl = ntrl }) self

  unfoldable pub load_hdma_entry : ℕ → ℕ → SysBus P A → HdmaState × SysBus P A
  unfolding load_indirect load_count
  load_hdma_entry i table_bank self =
      let self' = load_count i table_bank self in
      if (self'.dma i).ntrl == 0
      then (inactive, record self' { hdma_ended = bit_or self'.hdma_ended (2 ^ i) })
      else (
        record { active = true; do_transfer = true },
        if indirect (self'.dma i) then load_indirect i table_bank self' else self',
      )

  abbrev pub set_hdma : ℕ → HdmaState → SysBus P A → SysBus P A
  set_hdma i state self = record self { hdma = update i state self.hdma }

  unfoldable pub load_entry : ℕ → SysBus P A → SysBus P A
  unfolding load_hdma_entry
  load_entry i self =
      let (state, self') = load_hdma_entry i (self.dma i).a1b self in set_hdma i state self'

  unfoldable pub init_channel : ℕ → SysBus P A → SysBus P A
  unfolding load_entry
  init_channel i self =
      if has self.hdmaen (2 ^ i)
      then load_entry i (set_channel i (λ ch. record ch { a2a = ch.a1t }) self)
      else set_hdma i inactive self

  unfoldable pub init_hdma : SysBus P A → SysBus P A
  unfolding init_channel
  init_hdma self = each_below 8 init_channel (record self { hdma_ended = 0 })

  -- The end of a channel's line: NTRL falls, and its low bits at 0 load the next entry.
  unfoldable pub finish_line : ℕ → SysBus P A → SysBus P A
  unfolding load_entry
  finish_line i self =
      let ntrl = sub8 (self.dma i).ntrl 1 in
      let self' = set_channel i (λ ch. record ch { ntrl = ntrl }) self in
      if bit_and ntrl 0x7F == 0
      then load_entry i self'
      else set_hdma i (record { active = (self'.hdma i).active; do_transfer = has ntrl 0x80 }) self'

  -- The rolling data pointer moves past a byte.
  unfoldable pub step_pointer : ℕ → SysBus P A → SysBus P A
  step_pointer i self =
      set_channel i
        (λ ch.
          if indirect ch
          then record ch { das = add16 ch.das 1 }
          else record ch { a2a = add16 ch.a2a 1 })
        self

  -- The three lines on which `start_line` does something.
  unfoldable pub enter_frame : SysBus P A → SysBus P A
  enter_frame self = record (recompute_irq_target self) { nmi_flag = false }

  unfoldable pub latch_joypad : SysBus P A → SysBus P A
  latch_joypad self = record self {
    joy_prev = self.joypad.joy1;
    joypad = auto_read self.joypad;
    auto_joy_busy = true;
  }

  unfoldable pub enter_vblank : SysBus P A → SysBus P A
  unfolding latch_joypad
  enter_vblank self =
      let self' = record self {
        nmi_flag = true;
        nmi_pending = if has self.nmitimen 0x80 then true else self.nmi_pending;
      } in
      if has self.nmitimen 0x01 then latch_joypad self' else self'

module _ {P A : Type 0} (dev : Devices P A) where
  unfoldable pub hdma_byte : ℕ → ℕ → SysBus P A → SysBus P A
  unfolding step_pointer
  hdma_byte i offset self =
      let v = a_read (pointer (self.dma i)) self in
      step_pointer i (b_write dev (b_address (self.dma i).bbad offset) v self)

  -- The bytes of one pattern; a fault breaks the loop after the pointer moved.
  unfoldable pub hdma_bytes : ℕ → List ℕ → SysBus P A → SysBus P A
  unfolding hdma_byte
  hdma_bytes i [] self = self
  hdma_bytes i (offset ∷ rest) self =
      let self' = hdma_byte i offset self in
      let later = hdma_bytes i rest self' in if has_fault self' then self' else later

  unfoldable pub hdma_transfer : ℕ → SysBus P A → SysBus P A
  unfolding hdma_bytes
  hdma_transfer i self =
      if (self.hdma i).do_transfer then hdma_bytes i (unit_pattern (self.dma i).dmap) self else self

  -- A fault ends the loop over the channels, so every later channel does nothing.
  unfoldable pub hdma_channel : ℕ → SysBus P A → SysBus P A
  unfolding hdma_transfer finish_line
  hdma_channel i self =
      if has self.hdmaen (2 ^ i) && ((self.hdma i).active && not (has_fault self))
      then (let self' = hdma_transfer i self in
          if has_fault self' then self' else finish_line i self')
      else self

  unfoldable pub execute_hdma : SysBus P A → SysBus P A
  unfolding hdma_channel
  execute_hdma self = each_below 8 hdma_channel self

  unfoldable pub start_line : ℕ → SysBus P A → SysBus P A
  unfolding enter_frame enter_vblank
  start_line line self =
      let self' = record self { line = line } in
      let vblank_start = dev.vblank_start_line self.ppu in
      if line == 0
      then enter_frame self'
      else if line == vblank_start
      then enter_vblank self'
      else if line == vblank_start + 3
      then record self' { auto_joy_busy = false }
      else self'
