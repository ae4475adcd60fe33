-- ===== src/SysBus/Sound/PerLine.antt =====
-- The bus invariant through HDMA and the scanline hook.
use reference_workload.Base.{
  if-holds, ℕ, ◌+◌, ◌^◌, ◌<◌, ◌==◌, ◌&&◌, not, arith, List, [], ◌∷◌, has, bit_and, join,
  long_address, add16, sub8, Option, each_below-keeps,
}
use reference_workload.Fault.{Fault}
use reference_workload.Dma.{DmaChannel, HdmaState, unit_pattern}
use reference_workload.SysBus.{SysBus, has_fault}
use reference_workload.SysBus.Ports.{a_read, b_write}
use reference_workload.SysBus.General.{b_address, set_channel}
use reference_workload.SysBus.Clock.{recompute_irq_target}
use reference_workload.SysBus.PerLine.{
  indirect, pointer, load_indirect, load_count, load_hdma_entry, load_entry, init_channel,
  init_hdma, finish_line, step_pointer, hdma_byte, hdma_bytes, hdma_transfer, hdma_channel,
  execute_hdma, enter_frame, latch_joypad, enter_vblank, start_line,
}
use reference_workload.SysBus.Sound.{SafeDevices, IsByteChannel, IsSound}
use reference_workload.SysBus.Sound.Memory.{set_channel-IsSound}
use reference_workload.SysBus.Sound.Ports.{a_read-IsByte, b_write-IsSound}

-- A change of the count byte and of two-byte registers.
rolled-IsByteChannel :
    (das a2a ntrl : ℕ) (ch : DmaChannel)
    → ntrl < 2 ^ 8
    → IsByteChannel ch
    → IsByteChannel (record ch { das = das; a2a = a2a; ntrl = ntrl })
rolled-IsByteChannel das a2a ntrl ch p c = record {
  dmap_byte = c.dmap_byte;
  bbad_byte = c.bbad_byte;
  a1b_byte = c.a1b_byte;
  dasb_byte = c.dasb_byte;
  ntrl_byte = p;
}

module _ {P A : Type 0} {safe : SafeDevices P A} {n : ℕ} {first : Option Fault} where
  load_indirect-IsSound :
      (i bank : ℕ) (self : SysBus P A)
      → IsSound safe n first self
      → IsSound safe n first (load_indirect i bank self)
  unfolding load_indirect
  load_indirect-IsSound i bank self h =
      set_channel-IsSound i _ self
        (λ ch c.
          rolled-IsByteChannel
            (join (a_read (long_address bank (self.dma i).a2a) self)
              (a_read (long_address bank (add16 (self.dma i).a2a 1)) self))
            (add16 (self.dma i).a2a 2) ch.ntrl ch c.ntrl_byte c)
        h

  load_count-IsSound :
      (i bank : ℕ) (self : SysBus P A)
      → IsSound safe n first self
      → IsSound safe n first (load_count i bank self)
  unfolding load_count
  load_count-IsSound i bank self h =
      let addr = long_address bank (self.dma i).a2a in
      set_channel-IsSound i _ self
        (λ ch c.
          rolled-IsByteChannel ch.das (add16 (self.dma i).a2a 1) (a_read addr self) ch
            (a_read-IsByte addr self h) c)
        h

  load_entry-IsSound :
      (i : ℕ) (self : SysBus P A)
      → IsSound safe n first self
      → IsSound safe n first (load_entry i self)
  unfolding load_entry load_hdma_entry
  load_entry-IsSound i self h =
      let bank = (self.dma i).a1b in
      let self' = load_count i bank self in
      let k = load_count-IsSound i bank self h in
      if-holds (λ (u : HdmaState × SysBus P A). IsSound safe n first u.1) ((self'.dma i).ntrl == 0)
        k
        (if-holds (IsSound safe n first) (indirect (self'.dma i))
          (load_indirect-IsSound i bank self' k) k)

  init_channel-IsSound :
      (i : ℕ) (self : SysBus P A)
      → IsSound safe n first self
      → IsSound safe n first (init_channel i self)
  unfolding init_channel
  init_channel-IsSound i self h =
      let start = set_channel i (λ ch. record ch { a2a = ch.a1t }) self in
      if-holds (IsSound safe n first) (has self.hdmaen (2 ^ i))
        (load_entry-IsSound i start (
          set_channel-IsSound i _ self
            (λ ch c. rolled-IsByteChannel ch.das ch.a1t ch.ntrl ch c.ntrl_byte c) h))
        h

  pub init_hdma-IsSound :
      (self : SysBus P A) → IsSound safe n first self → IsSound safe n first (init_hdma self)
  unfolding init_hdma
  init_hdma-IsSound self h =
      each_below-keeps (IsSound safe n first) init_channel init_channel-IsSound 8
        (record self { hdma_ended = 0 }) h

  finish_line-IsSound :
      (i : ℕ) (self : SysBus P A)
      → IsSound safe n first self
      → IsSound safe n first (finish_line i self)
  unfolding finish_line
  finish_line-IsSound i self h =
      let ntrl = sub8 (self.dma i).ntrl 1 in
      let self' = set_channel i (λ ch. record ch { ntrl = ntrl }) self in
      let k =
        set_channel-IsSound i (λ ch. record ch { ntrl = ntrl }) self
          (λ ch c. rolled-IsByteChannel ch.das ch.a2a ntrl ch (omega arith) c) h in
      if-holds (IsSound safe n first) (bit_and ntrl 0x7F == 0) (load_entry-IsSound i self' k) k

  step_pointer-IsSound :
      (i : ℕ) (self : SysBus P A)
      → IsSound safe n first self
      → IsSound safe n first (step_pointer i self)
  unfolding step_pointer
  step_pointer-IsSound i self h =
      set_channel-IsSound i _ self
        (λ ch c.
          if-holds IsByteChannel (indirect ch)
            (rolled-IsByteChannel (add16 ch.das 1) ch.a2a ch.ntrl ch c.ntrl_byte c)
            (rolled-IsByteChannel ch.das (add16 ch.a2a 1) ch.ntrl ch c.ntrl_byte c))
        h

  hdma_byte-IsSound :
      (i offset : ℕ) (self : SysBus P A)
      → IsSound safe n first self
      → IsSound safe n first (hdma_byte safe.dev i offset self)
  unfolding hdma_byte
  hdma_byte-IsSound i offset self h =
      let v = a_read (pointer (self.dma i)) self in
      let addr = b_address (self.dma i).bbad offset in
      step_pointer-IsSound i (b_write safe.dev addr v self)
        (b_write-IsSound addr v self (a_read-IsByte (pointer (self.dma i)) self h) h)

  hdma_bytes-IsSound :
      (i : ℕ) (pattern : List ℕ) (self : SysBus P A)
      → IsSound safe n first self
      → IsSound safe n first (hdma_bytes safe.dev i pattern self)
  unfolding hdma_bytes
  hdma_bytes-IsSound i [] self h = h
  hdma_bytes-IsSound i (offset ∷ rest) self h =
      let self' = hdma_byte safe.dev i offset self in
      let k = hdma_byte-IsSound i offset self h in
      if-holds (IsSound safe n first) (has_fault self') k (hdma_bytes-IsSound i rest self' k)

  hdma_transfer-IsSound :
      (i : ℕ) (self : SysBus P A)
      → IsSound safe n first self
      → IsSound safe n first (hdma_transfer safe.dev i self)
  unfolding hdma_transfer
  hdma_transfer-IsSound i self h =
      if-holds (IsSound safe n first) (self.hdma i).do_transfer
        (hdma_bytes-IsSound i (unit_pattern (self.dma i).dmap) self h) h

  hdma_channel-IsSound :
      (i : ℕ) (self : SysBus P A)
      → IsSound safe n first self
      → IsSound safe n first (hdma_channel safe.dev i self)
  unfolding hdma_channel
  hdma_channel-IsSound i self h =
      let self' = hdma_transfer safe.dev i self in
      let k = hdma_transfer-IsSound i self h in
      if-holds (IsSound safe n first)
        (has self.hdmaen (2 ^ i) && ((self.hdma i).active && not (has_fault self)))
        (if-holds (IsSound safe n first) (has_fault self') k (finish_line-IsSound i self' k)) h

  pub execute_hdma-IsSound :
      (self : SysBus P A)
      → IsSound safe n first self
      → IsSound safe n first (execute_hdma safe.dev self)
  unfolding execute_hdma
  execute_hdma-IsSound self h =
      each_below-keeps (IsSound safe n first) (hdma_channel safe.dev) hdma_channel-IsSound 8 self h

  enter_vblank-IsSound :
      (self : SysBus P A) → IsSound safe n first self → IsSound safe n first (enter_vblank self)
  unfolding enter_vblank latch_joypad
  enter_vblank-IsSound self h = if-holds (IsSound safe n first) (has self.nmitimen 0x01) h h

  enter_frame-IsSound :
      (self : SysBus P A) → IsSound safe n first self → IsSound safe n first (enter_frame self)
  unfolding enter_frame recompute_irq_target
  enter_frame-IsSound self h = h

  pub start_line-IsSound :
      (line : ℕ) (self : SysBus P A)
      → IsSound safe n first self
      → IsSound safe n first (start_line safe.dev line self)
  unfolding start_line
  start_line-IsSound line self h =
      let self' = record self { line = line } in
      let vblank_start = safe.dev.vblank_start_line self.ppu in
      if-holds (IsSound safe n first) (line == 0) (enter_frame-IsSound self' h) (
        if-holds (IsSound safe n first) (line == vblank_start) (enter_vblank-IsSound self' h)
          (if-holds (IsSound safe n first) (line == vblank_start + 3) h h))
