-- ===== src/SysBus/General/Exact.antt =====
-- What a general DMA channel copies and how far it gets: its registers and the clock point at the
-- byte it stopped at.
use reference_workload.Base.{
  ℕ, zero, suc, sym, false, if◌then◌else◌, Bool-cases, if_true, ◌+◌, ◌*◌, ◌%◌, ◌^◌, ◌<◌, ◌≤◌, ◌≡◌,
  ◌≢◌, refl, ap, ◌∙◌, ◌⊎◌, inl, inr, true, if-split, arith, List, get_or, length, has, update,
  update_hit, update_miss,
}
use reference_workload.Dma.{Dma, DmaChannel, unit_pattern}
use reference_workload.SysBus.{Devices, SysBus, has_fault}
use reference_workload.SysBus.Clock.{add_mclk}
use reference_workload.SysBus.General.{
  b_address, a_address, after_byte, byte_count, transfer, count_byte, dma_loop, dma_channel,
}
use reference_workload.SysBus.Ports.{a_read, a_write, b_read, b_write}
use reference_workload.SysBus.General.Copies.{
  b_side, at_byte, at_byte_start, after_byte-at_byte, copy_byte, counted, Copies, finished, copied,
}
use native.Mathlib.Nat.{mod-add-mod, zero-mod}
use mathlib.Core.Path.{subst}
use reference_workload.SysBus.General.Keeps.{
  add_mclk_clock, add_mclk_dma, add_mclk_fault, copy_byte-Has,
}

module _ {P A : Type 0} (dev : Devices P A) where
  -- The loop copies between the addresses that the registers at the start give.
  transfer-copy_byte :
      (i pos j : ℕ) (ch : DmaChannel) (self : SysBus P A)
      → self.dma i ≡ at_byte ch j
      → pos ≡ j % length (unit_pattern ch.dmap)
      → transfer dev i (b_address ch.bbad (get_or (unit_pattern ch.dmap) pos 0)) self
        ≡ copy_byte dev ch j self
  unfolding transfer copy_byte
  transfer-copy_byte i pos j ch self e at =
      ap (λ (n : ℕ). transfer dev i (b_address ch.bbad (get_or (unit_pattern ch.dmap) n 0)) self) at
      ∙ ap
          (λ (d : DmaChannel).
            if has d.dmap 0x80
            then (let (v, self') = b_read dev (b_side ch j) self in a_write (a_address d) v self')
            else b_write dev (b_side ch j) (a_read (a_address d) self) self)
          e

  count_byte-counted :
      (i j : ℕ) (ch : DmaChannel) (self : SysBus P A)
      → self.dma i ≡ at_byte ch j
      → j < byte_count ch
      → ch.a1t < 2 ^ 16
      → ch.das < 2 ^ 16
      → count_byte i self ≡ counted i ch (suc j) self
  unfolding count_byte counted
  count_byte-counted i j ch self e below p q =
      ap (λ (d : DmaChannel). add_mclk 8 (record self { dma = update i d self.dma }))
        (ap after_byte e ∙ after_byte-at_byte ch j below p q)

  loop-stopped :
      (i bbad : ℕ) (pattern : List ℕ) (remaining : ℕ) (self : SysBus P A)
      → has_fault self ≡ true
      → dma_loop dev i bbad pattern remaining 0 self ≡ self
  unfolding dma_loop
  loop-stopped i bbad pattern zero self t = refl
  loop-stopped i bbad pattern (suc remaining) self t = if_true (has_fault self) _ _ t

  module _ (i : ℕ) (ch : DmaChannel) (word_a1t : ch.a1t < 2 ^ 16) (word_das : ch.das < 2 ^ 16) where
    -- A loop that is at byte `j`, with no fault so far, ends in `self'`.
    record Ends (j : ℕ) (self self' : SysBus P A) : Type 0 where
      bytes : ℕ
      stop : SysBus P A
      within_count : bytes ≤ byte_count ch
      copies : Copies dev i ch j bytes self stop
      channel : self'.dma i ≡ at_byte ch bytes
      others : (k : ℕ) → i ≢ k → self'.dma k ≡ self.dma k
      time : self'.mclk_frame + 8 * j ≡ self.mclk_frame + 8 * bytes
      ending :
          ((bytes ≡ byte_count ch) × (self' ≡ stop))
          ⊎ ((bytes < byte_count ch)
              × (has_fault self' ≡ true)
              × (self' ≡ copy_byte dev ch bytes stop))

    abbrev loop : (remaining pos : ℕ) → SysBus P A → SysBus P A
    loop remaining pos self = dma_loop dev i ch.bbad (unit_pattern ch.dmap) remaining pos self

    next_pos : (pos j n : ℕ) → pos ≡ j % n → (pos + 1) % n ≡ suc j % n
    next_pos pos j n e =
        ap (λ (q : ℕ). (q + 1) % n) e
        ∙ mod-add-mod j n 1
        ∙ ap (λ (q : ℕ). q % n) {x = j + 1} {y = suc j} (omega arith)

    -- One byte more in front.
    Ends-after :
        (j : ℕ) (self self' : SysBus P A)
        → has_fault (copy_byte dev ch j self) ≡ false
        → Ends (suc j) (counted i ch (suc j) (copy_byte dev ch j self)) self'
        → Ends j self self'
    unfolding counted
    Ends-after j self self' f h =
        let moved = copy_byte dev ch j self in
        let (d, m) = copy_byte-Has dev ch j self in
        let start = record moved { dma = update i (at_byte ch (suc j)) moved.dma } in
        record {
          bytes = h.bytes;
          stop = h.stop;
          within_count = h.within_count;
          copies = copied j h.bytes self h.stop f h.copies;
          channel = h.channel;
          others = λ k n.
              h.others k n
              ∙ ap (λ (r : Dma). r k) (add_mclk_dma 8 start)
              ∙ update_miss i k (at_byte ch (suc j)) moved.dma n
              ∙ ap (λ (r : Dma). r k) d;
          time = omega (arith, h.time, add_mclk_clock 8 start, m);
          ending = h.ending;
        }

    faulted-Ends :
        (j : ℕ) (self : SysBus P A)
        → self.dma i ≡ at_byte ch j
        → j < byte_count ch
        → has_fault (copy_byte dev ch j self) ≡ true
        → Ends j self (copy_byte dev ch j self)
    faulted-Ends j self e below t =
        let (d, m) = copy_byte-Has dev ch j self in
        record {
          bytes = j;
          stop = self;
          within_count = omega (arith, below);
          copies = finished j self;
          channel = ap (λ (r : Dma). r i) d ∙ e;
          others = λ k n. ap (λ (r : Dma). r k) d;
          time = omega (arith, m);
          ending = inr (below, t, refl);
        }

    counted-at_byte : (j : ℕ) (self : SysBus P A) → (counted i ch j self).dma i ≡ at_byte ch j
    unfolding counted
    counted-at_byte j self =
        ap (λ (r : Dma). r i)
          (add_mclk_dma 8 (record self { dma = update i (at_byte ch j) self.dma }))
        ∙ update_hit i (at_byte ch j) self.dma

    counted_fault : (j : ℕ) (self : SysBus P A) → has_fault (counted i ch j self) ≡ has_fault self
    unfolding counted
    counted_fault j self = add_mclk_fault 8 (record self { dma = update i (at_byte ch j) self.dma })

    loop-Ends :
        (remaining pos j : ℕ) (self : SysBus P A)
        → j + remaining ≡ byte_count ch
        → pos ≡ j % length (unit_pattern ch.dmap)
        → self.dma i ≡ at_byte ch j
        → has_fault self ≡ false
        → Ends j self (loop remaining pos self)
    unfolding dma_loop
    loop-Ends zero pos j self full at e f = record {
      bytes = j;
      stop = self;
      within_count = omega (arith, full);
      copies = finished j self;
      channel = e;
      others = λ k n. refl;
      time = refl;
      ending = inl (omega (arith, full), refl);
    }
    loop-Ends (suc remaining) pos j self full at e f =
        let moved = copy_byte dev ch j self in
        let len = length (unit_pattern ch.dmap) in
        let moved' =
          transfer dev i (b_address ch.bbad (get_or (unit_pattern ch.dmap) pos 0)) self in
        let same : moved' ≡ moved = transfer-copy_byte i pos j ch self e at in
        let below : j < byte_count ch = omega (arith, full) in
        let (d, m) = copy_byte-Has dev ch j self in
        let next : count_byte i moved' ≡ counted i ch (suc j) moved =
          ap (count_byte i) same
          ∙ count_byte-counted i j ch moved (ap (λ (r : Dma). r i) d ∙ e) below word_a1t word_das in
        if-split (Ends j self) (has_fault self) (λ t. absurd (ground (arith, f, t)))
          λ _.
            if-split (Ends j self) (has_fault moved')
              (λ t.
                subst (Ends j self) (sym same)
                  (faulted-Ends j self e below (ap has_fault (sym same) ∙ t)))
              λ g.
                let g' = ap has_fault (sym same) ∙ g in
                subst (λ (s : SysBus P A). Ends j self (loop remaining ((pos + 1) % len) s))
                  (sym next)
                  (Ends-after j self (loop remaining ((pos + 1) % len) (counted i ch (suc j) moved))
                    g'
                    (loop-Ends remaining ((pos + 1) % len) (suc j) (counted i ch (suc j) moved)
                      (omega (arith, full)) (next_pos pos j len at) (counted-at_byte (suc j) moved)
                      (counted_fault (suc j) moved ∙ g')))

  -- How a channel that started from `self` leaves the bus. On a bus that has faulted it does nothing
  -- more than take its 8 clocks. Else the bytes before number `k` were copied without a fault, in
  -- order, each between the two addresses of its number; and either that is all of them, or byte `k`
  -- faulted, and the bus is as that byte left it.
  unfoldable pub IsExact : ℕ → SysBus P A → SysBus P A → Type 0
  IsExact i self self' =
      let ch = self.dma i in
      let start = add_mclk 8 self in
      ((has_fault self ≡ true) × (self' ≡ start))
      ⊎ ((has_fault self ≡ false)
          × ((k : ℕ) × (stop : SysBus P A) × Copies dev i ch 0 k start stop
              × (k ≤ byte_count ch)
              × (self'.dma i ≡ at_byte ch k)
              × ((j : ℕ) → i ≢ j → self'.dma j ≡ self.dma j)
              × (self'.mclk_frame ≡ self.mclk_frame + 8 + 8 * k)
              × (((k ≡ byte_count ch) × (self' ≡ stop))
                  ⊎ ((k < byte_count ch)
                      × (has_fault self' ≡ true)
                      × (self' ≡ copy_byte dev ch k stop)))))

  -- A general DMA channel whose A1T and DAS are words, on a bus with no fault, copies its bytes in
  -- order, `DAS` of them and 65536 for 0. Byte `j` goes between bank A1B at A1T stepped `j` times up,
  -- down or not at all, and the B-bus register BBAD plus the entry of the unit pattern at `j` around
  -- its length, in the direction that DMAP says. Either all the bytes are copied without a fault, or
  -- the first byte that faults is the last one that is tried, and it is not counted: with `k` bytes
  -- before it A1T has stepped `k` times, DAS is what is left of the count, no other DMA register of
  -- any channel has changed, and the clock is 8 and 8 for each byte counted later. On a bus with a
  -- fault the channel takes 8 clocks and does nothing.
  pub dma_channel-IsExact :
      (i : ℕ) (self : SysBus P A)
      → (self.dma i).a1t < 2 ^ 16
      → (self.dma i).das < 2 ^ 16
      → IsExact i self (dma_channel dev i self)
  unfolding dma_channel IsExact
  dma_channel-IsExact i self p q =
      let start = add_mclk 8 self in
      let same = add_mclk_dma 8 self in
      let ch = self.dma i in
      let e : start.dma i ≡ ch = ap (λ (r : Dma). r i) same in
      elim (Bool-cases (has_fault self)) [
        | inl t ↦ inl (
          t,
          loop-stopped i (start.dma i).bbad (unit_pattern (start.dma i).dmap)
              (byte_count (start.dma i)) start (add_mclk_fault 8 self ∙ t),
        )
        | inr f ↦
            let h =
              subst
                (λ (c : DmaChannel).
                  Ends i ch p q 0 start
                    (dma_loop dev i c.bbad (unit_pattern c.dmap) (byte_count c) 0 start))
                (sym e)
                (loop-Ends i ch p q (byte_count ch) 0 0 start (omega arith)
                  (sym (zero-mod (length (unit_pattern ch.dmap)))) (e ∙ at_byte_start ch p q)
                  (add_mclk_fault 8 self ∙ f)) in
            inr (
              f,
              (
                h.bytes,
                h.stop,
                h.copies,
                h.within_count,
                h.channel,
                λ j n. h.others j n ∙ ap (λ (r : Dma). r j) same,
                omega (arith, h.time, add_mclk_clock 8 self),
                h.ending,
              ),
            )
      ]
