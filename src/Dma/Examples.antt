-- ===== src/Dma/Examples.antt =====
-- The high byte of A1T on channel 2.
use reference_workload.Base.{◌≡◌, ◌&&◌, if◌then◌else◌, ◌==◌, some, arith}
use reference_workload.Dma.{Dma, idle_channel, read, write}
use reference_workload.Dma.Registers.{IsWordChannel, read-write_register}

abbrev idle_channels : Dma
idle_channels i = idle_channel

idle_channel-IsWordChannel : IsWordChannel idle_channel
unfolding idle_channel
idle_channel-IsWordChannel = record {
  a1t_word = omega arith;
  das_word = omega arith;
  a2a_word = omega arith;
}

read-write_register_example :
    read (write 2 3 0x7F idle_channels) 2 2
    ≡ (if (2 == 2) && (2 == 3) then some 0x7F else read idle_channels 2 2)
read-write_register_example =
    read-write_register 2 3 0x7F idle_channels 2 2 (omega arith) (omega arith) (omega arith)
      idle_channel-IsWordChannel
