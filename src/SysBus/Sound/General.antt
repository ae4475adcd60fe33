-- ===== src/SysBus/Sound/General.antt =====
-- The bus invariant through general DMA.
use reference_workload.Base.{
  if-holds, ℕ, zero, suc, ◌+◌, ◌%◌, ◌^◌, arith, List, get_or, length, has, Option, each_below-keeps,
}
use reference_workload.Fault.{Fault}
use reference_workload.Dma.{DmaChannel, unit_pattern}
use reference_workload.SysBus.{SysBus, has_fault}
use reference_workload.SysBus.Clock.{add_mclk}
use reference_workload.SysBus.Ports.{a_read, b_read}
use reference_workload.SysBus.General.{
  b_address, a_address, after_byte, byte_count, set_channel, transfer, count_byte, dma_loop,
  dma_channel, execute_dma,
}
use reference_workload.SysBus.Sound.{SafeDevices, IsByteChannel, IsSound}
use reference_workload.SysBus.Sound.Memory.{set_channel-IsSound}
use reference_workload.SysBus.Sound.Clock.{add_mclk-IsSound}
use reference_workload.SysBus.Sound.Ports.{
  a_read-IsByte, a_write-IsSound, b_read-IsSound, b_write-IsSound,
}

after_byte-IsByteChannel : (ch : DmaChannel) → IsByteChannel ch → IsByteChannel (after_byte ch)
unfolding after_byte
after_byte-IsByteChannel ch c = record {
  dmap_byte = c.dmap_byte;
  bbad_byte = c.bbad_byte;
  a1b_byte = c.a1b_byte;
  dasb_byte = c.dasb_byte;
  ntrl_byte = c.ntrl_byte;
}

module _ {P A : Type 0} {safe : SafeDevices P A} {n : ℕ} {first : Option Fault} where
  transfer-IsSound :
      (i b_addr : ℕ) (self : SysBus P A)
      → IsSound safe n first self
      → IsSound safe n first (transfer safe.dev i b_addr self)
  unfolding transfer
  transfer-IsSound i b_addr self h =
      let addr = a_address (self.dma i) in
      let (v, self') = b_read safe.dev b_addr self in
      let (p, k) = b_read-IsSound b_addr self h in
      if-holds (IsSound safe n first) (has (self.dma i).dmap 0x80)
        (a_write-IsSound addr v self' p k)
        (b_write-IsSound b_addr (a_read addr self) self (a_read-IsByte addr self h) h)

  count_byte-IsSound :
      (i : ℕ) (self : SysBus P A)
      → IsSound safe n first self
      → IsSound safe n first (count_byte i self)
  unfolding count_byte
  count_byte-IsSound i self h =
      add_mclk-IsSound 8 n (set_channel i after_byte self) (omega arith)
        (set_channel-IsSound i after_byte self after_byte-IsByteChannel h)

  dma_loop-IsSound :
      (i bbad : ℕ) (pattern : List ℕ) (remaining pos : ℕ) (self : SysBus P A)
      → IsSound safe n first self
      → IsSound safe n first (dma_loop safe.dev i bbad pattern remaining pos self)
  unfolding dma_loop
  dma_loop-IsSound i bbad pattern zero pos self h = h
  dma_loop-IsSound i bbad pattern (suc remaining) pos self h =
      let self' = transfer safe.dev i (b_address bbad (get_or pattern pos 0)) self in
      let k = transfer-IsSound i (b_address bbad (get_or pattern pos 0)) self h in
      if-holds (IsSound safe n first) (has_fault self) h (
        if-holds (IsSound safe n first) (has_fault self') k (
          dma_loop-IsSound i bbad pattern remaining ((pos + 1) % length pattern)
            (count_byte i self') (count_byte-IsSound i self' k)))

  dma_channel-IsSound :
      (i : ℕ) (self : SysBus P A)
      → IsSound safe n first self
      → IsSound safe n first (dma_channel safe.dev i self)
  unfolding dma_channel
  dma_channel-IsSound i self h =
      let self' = add_mclk 8 self in
      let ch = self'.dma i in
      dma_loop-IsSound i ch.bbad (unit_pattern ch.dmap) (byte_count ch) 0 self'
        (add_mclk-IsSound 8 n self (omega arith) h)

  pub execute_dma-IsSound :
      (mdmaen : ℕ) (self : SysBus P A)
      → IsSound safe n first self
      → IsSound safe n first (execute_dma safe.dev mdmaen self)
  unfolding execute_dma
  execute_dma-IsSound mdmaen self h =
      each_below-keeps (IsSound safe n first) _
        (λ i s k.
          if-holds (IsSound safe n first) (has mdmaen (2 ^ i)) (dma_channel-IsSound i s k) k)
        8 (add_mclk 12 self) (add_mclk-IsSound 12 n self (omega arith) h)
