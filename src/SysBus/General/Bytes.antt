-- ===== src/SysBus/General/Bytes.antt =====
-- The registers of a general DMA channel after a number of bytes.
use reference_workload.Base.{ℕ, suc, ◌+◌, ◌-◌, ◌%◌, ◌^◌, ◌<◌, ◌≤◌, ◌≡◌, if◌then◌else◌, arith, has}
use reference_workload.Dma.{DmaChannel}
use reference_workload.SysBus.General.{fixed, after_byte}

-- Where A1T stands after `k` bytes: still, down or up, around 2 ^ 16.
unfoldable pub stepped : DmaChannel → ℕ → ℕ
stepped ch k =
    if fixed ch
    then ch.a1t
    else if has ch.dmap 0x10
    then (ch.a1t + 2 ^ 16 - k) % 2 ^ 16
    else (ch.a1t + k) % 2 ^ 16

pub after_byte_das :
    (ch : DmaChannel) (c : ℕ)
    → ch.das ≡ suc c % 2 ^ 16
    → suc c ≤ 2 ^ 16
    → (after_byte ch).das ≡ c % 2 ^ 16
unfolding after_byte
after_byte_das ch c e h = ground (arith, e, h)

pub stepped_zero : (ch : DmaChannel) → ch.a1t < 2 ^ 16 → ch.a1t ≡ stepped ch 0
unfolding stepped
stepped_zero ch h = ground (arith, h)
