-- ===== src/Dma/Registers.antt =====
-- The DMA register file gives back what was written, and a write touches one register.
use reference_workload.Base.{
  ℕ, zero, suc, ◌+◌, ◌*◌, ◌%◌, ◌^◌, ◌<◌, ◌≤◌, ◌≡◌, refl, sym, ap, ◌∙◌, Bool, true, false,
  if◌then◌else◌, ◌==◌, u8, u16, ◌>>>◌, ◌<<<◌, bit_or, with_low, with_low_lem, low_byte_lem, none,
  some, arith, ◌&&◌, leb, update, update_hit, update_miss, ℕ_discrete, if_false,
}
use reference_workload.Base.Bits.{bit_or_fields}
use reference_workload.Dma.{Dma, read, write, DmaChannel, with_high, read_channel, write_channel}

-- The two-byte registers are words.
pub record IsWordChannel (ch : DmaChannel) : Type 0 where
  pub a1t_word : ch.a1t < 2 ^ 16
  pub das_word : ch.das < 2 ^ 16
  pub a2a_word : ch.a2a < 2 ^ 16

pub with_high_lem : (a r : ℕ) → r < 256 → with_high a r ≡ r * 256 + a % 256
unfolding with_high
with_high_lem a r h =
    ap (λ (t : ℕ). bit_or t (u16 (r <<< 8))) (low_byte_lem a)
    ∙ ap (bit_or (a % 256)) {x = u16 (r * 256)} {y = r * 256} (omega (arith, h))
    ∙ bit_or_fields 8 (a % 256) r (omega arith)

low_new : (a v : ℕ) → a < 2 ^ 16 → v < 2 ^ 8 → u8 (with_low a v) ≡ v
low_new a v h p = omega (arith, with_low_lem a v h p, p)

low_old : (a v : ℕ) → a < 2 ^ 16 → v < 2 ^ 8 → u8 (with_low a v >>> 8) ≡ u8 (a >>> 8)
low_old a v h p = omega (arith, with_low_lem a v h p, p)

high_new : (a v : ℕ) → v < 2 ^ 8 → u8 (with_high a v >>> 8) ≡ v
high_new a v p = omega (arith, with_high_lem a v p, p)

high_old : (a v : ℕ) → v < 2 ^ 8 → u8 (with_high a v) ≡ u8 a
high_old a v p = omega (arith, with_high_lem a v p, p)

-- A read of any register after a write: the byte in the register written, else what was there.
abbrev Reads : ℕ → ℕ → DmaChannel → Type 0
Reads reg v ch =
    (q : ℕ)
    → read_channel (write_channel reg v ch) q ≡ (if q == reg then some v else read_channel ch q)

after_dmap : (v : ℕ) (ch : DmaChannel) → Reads 0 v ch
unfolding read_channel write_channel
after_dmap v ch q = ground arith

after_bbad : (v : ℕ) (ch : DmaChannel) → Reads 1 v ch
unfolding read_channel write_channel
after_bbad v ch q = ground arith

after_a1t_low : (v : ℕ) (ch : DmaChannel) → v < 2 ^ 8 → IsWordChannel ch → Reads 2 v ch
unfolding read_channel write_channel
after_a1t_low v ch p w q =
    ground (arith, low_new ch.a1t v w.a1t_word p, low_old ch.a1t v w.a1t_word p)

after_a1t_high : (v : ℕ) (ch : DmaChannel) → v < 2 ^ 8 → IsWordChannel ch → Reads 3 v ch
unfolding read_channel write_channel
after_a1t_high v ch p w q = ground (arith, high_new ch.a1t v p, high_old ch.a1t v p)

after_a1b : (v : ℕ) (ch : DmaChannel) → Reads 4 v ch
unfolding read_channel write_channel
after_a1b v ch q = ground arith

after_das_low : (v : ℕ) (ch : DmaChannel) → v < 2 ^ 8 → IsWordChannel ch → Reads 5 v ch
unfolding read_channel write_channel
after_das_low v ch p w q =
    ground (arith, low_new ch.das v w.das_word p, low_old ch.das v w.das_word p)

after_das_high : (v : ℕ) (ch : DmaChannel) → v < 2 ^ 8 → IsWordChannel ch → Reads 6 v ch
unfolding read_channel write_channel
after_das_high v ch p w q = ground (arith, high_new ch.das v p, high_old ch.das v p)

after_dasb : (v : ℕ) (ch : DmaChannel) → Reads 7 v ch
unfolding read_channel write_channel
after_dasb v ch q = ground arith

after_a2a_low : (v : ℕ) (ch : DmaChannel) → v < 2 ^ 8 → IsWordChannel ch → Reads 8 v ch
unfolding read_channel write_channel
after_a2a_low v ch p w q =
    ground (arith, low_new ch.a2a v w.a2a_word p, low_old ch.a2a v w.a2a_word p)

after_a2a_high : (v : ℕ) (ch : DmaChannel) → v < 2 ^ 8 → IsWordChannel ch → Reads 9 v ch
unfolding read_channel write_channel
after_a2a_high v ch p w q = ground (arith, high_new ch.a2a v p, high_old ch.a2a v p)

after_ntrl : (v : ℕ) (ch : DmaChannel) → Reads 10 v ch
unfolding read_channel write_channel
after_ntrl v ch q = ground arith

channel-read_write :
    (reg v : ℕ) (ch : DmaChannel) → reg ≤ 0xA → v < 2 ^ 8 → IsWordChannel ch → Reads reg v ch
channel-read_write zero v ch r p w = after_dmap v ch
channel-read_write (suc zero) v ch r p w = after_bbad v ch
channel-read_write (suc (suc zero)) v ch r p w = after_a1t_low v ch p w
channel-read_write (suc (suc (suc zero))) v ch r p w = after_a1t_high v ch p w
channel-read_write (suc (suc (suc (suc zero)))) v ch r p w = after_a1b v ch
channel-read_write (suc (suc (suc (suc (suc zero))))) v ch r p w = after_das_low v ch p w
channel-read_write (suc (suc (suc (suc (suc (suc zero)))))) v ch r p w = after_das_high v ch p w
channel-read_write (suc (suc (suc (suc (suc (suc (suc zero))))))) v ch r p w = after_dasb v ch
channel-read_write (suc (suc (suc (suc (suc (suc (suc (suc zero)))))))) v ch r p w =
    after_a2a_low v ch p w
channel-read_write (suc (suc (suc (suc (suc (suc (suc (suc (suc zero))))))))) v ch r p w =
    after_a2a_high v ch p w
channel-read_write (suc (suc (suc (suc (suc (suc (suc (suc (suc (suc zero)))))))))) v ch r p w =
    after_ntrl v ch
channel-read_write (suc (suc (suc (suc (suc (suc (suc (suc (suc (suc (suc reg))))))))))) v ch r p
      w =
    absurd (omega (arith, r))

write_lem :
    (channel reg v : ℕ) (self : Dma)
    → channel < 8
    → write channel reg v self ≡ update channel (write_channel reg v (self channel)) self
unfolding write
write_lem channel reg v self c = if_false (leb 8 channel) self _ (ground (arith, c))

read_as :
    (self self' : Dma) (channel q : ℕ)
    → self' channel ≡ self channel
    → read self' channel q ≡ read self channel q
unfolding read
read_as self self' channel q e =
    ap (λ (ch : DmaChannel). if leb 8 channel then none else read_channel ch q) e

read_in :
    (self : Dma) (channel q : ℕ) → channel < 8 → read self channel q ≡ read_channel (self channel) q
unfolding read
read_in self channel q c = if_false (leb 8 channel) none _ (ground (arith, c))

-- In the register file of eight channels, a byte written to a register of a channel whose two-byte
-- registers are words reads back, and every other register of every channel reads as before, with
-- `none` where there is no register.
pub read-write_register :
    (channel reg v : ℕ) (self : Dma) (other q : ℕ)
    → channel < 8
    → reg ≤ 0xA
    → v < 2 ^ 8
    → IsWordChannel (self channel)
    → read (write channel reg v self) other q
      ≡ (if (other == channel) && (q == reg) then some v else read self other q)
read-write_register channel reg v self other q c r p w =
    let after = write_lem channel reg v self c in
    let new = update channel (write_channel reg v (self channel)) self in
    elim (ℕ_discrete other channel) [
      | yes e ↦
          let hit =
            ap (λ j. new j) e ∙ update_hit channel (write_channel reg v (self channel)) self in
          ap (λ d. read d other q) after
          ∙ read_in new other q (omega (arith, e, c))
          ∙ ap (λ ch. read_channel ch q) hit
          ∙ channel-read_write reg v (self channel) r p w q
          ∙ one_test (other == channel) (q == reg) (some v) _ (ground (arith, e))
          ∙ ap (λ t. if (other == channel) && (q == reg) then some v else t)
              (ap (λ j. read_channel (self j) q) (sym e)
                ∙ sym (read_in self other q (omega (arith, e, c))))
      | no n ↦
          ap (λ d. read d other q) after
          ∙ read_as self new other q
              (update_miss channel other (write_channel reg v (self channel)) self (λ e. n (sym e)))
          ∙ sym (if_false ((other == channel) && (q == reg)) (some v) _ (ground (arith, n)))
    ]
  where
    one_test :
        {A : Type 0} (s t : Bool) (x y : A)
        → s ≡ true
        → (if t then x else y) ≡ (if s && t then x else y)
    one_test true t x y h = refl
    one_test false t x y h = absurd (ground (arith, h))
