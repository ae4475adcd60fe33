-- ===== src/SysBus/PerLine/Entry.antt =====
-- The lines of one HDMA table entry: its count byte runs down, its data moves, and the next entry is
-- loaded at the end of the last line.
use reference_workload.Base.{ℕ, zero, suc, ◌-◌, ◌^◌, ◌≡◌, true, false, has}
use reference_workload.Dma.{DmaChannel}
use reference_workload.SysBus.{Devices, SysBus, has_fault}
use reference_workload.SysBus.PerLine.{load_entry, hdma_channel}
use reference_workload.SysBus.PerLine.Count.{entry_lines, transfers_on, after_lines}

module _ {P A : Type 0} (dev : Devices P A) where
  -- `k` lines of channel `i`.
  unfoldable pub hdma_lines : (k i : ℕ) → SysBus P A → SysBus P A
  hdma_lines zero i self = self
  hdma_lines (suc k) i self = hdma_channel dev i (hdma_lines k i self)

module _ {P A : Type 0} where
  -- The state before line `k` of such an entry on channel `i`.
  pub record IsAt (i n : ℕ) (ch : DmaChannel) (k : ℕ) (self : SysBus P A) : Type 0 where
    pub enabled : has self.hdmaen (2 ^ i) ≡ true
    pub active : (self.hdma i).active ≡ true
    pub next : (self.hdma i).do_transfer ≡ transfers_on n k
    pub registers : self.dma i ≡ after_lines n k ch
    pub unfaulted : has_fault self ≡ false

  -- The next entry was loaded on a bus whose channel was at the end of this one.
  pub record LoadsNext (i n : ℕ) (ch : DmaChannel) (self : SysBus P A) : Type 0 where
    pub ended : SysBus P A
    pub registers : ended.dma i ≡ after_lines n (entry_lines n) ch
    pub loaded : self ≡ load_entry i ended

  -- A line has transferred, and has not yet counted.
  record IsMoved (i n : ℕ) (ch : DmaChannel) (k : ℕ) (self : SysBus P A) : Type 0 where
    enabled : has self.hdmaen (2 ^ i) ≡ true
    active : (self.hdma i).active ≡ true
    registers : self.dma i ≡ record (after_lines n (suc k) ch) { ntrl = n - k }
    unfaulted : has_fault self ≡ false

module _ {P A : Type 0} (dev : Devices P A) where
  abbrev Faulted : SysBus P A → Type 0
  Faulted self = has_fault self ≡ true
