-- ===== src/SysBus/PerLine/Lines.antt =====
-- The end of one line of a HDMA table entry.
use reference_workload.Base.{
  ℕ, ◌-◌, ◌%◌, ◌^◌, ◌<◌, ◌≡◌, ◌≢◌, ap, ◌∙◌, Bool, if_true, if_false, ◌==◌, leb, has, sub8, bit_and,
  arith,
}
use reference_workload.Base.Bits.{bit_and-ones, bit_and_power}
use reference_workload.SysBus.{SysBus}
use reference_workload.SysBus.General.{set_channel}
use reference_workload.SysBus.PerLine.{set_hdma, load_entry, finish_line}

low_bits : (m : ℕ) → bit_and m 0x7F ≡ m % 128
low_bits m = bit_and-ones 7 m

top_bit : (m : ℕ) → m < 2 ^ 8 → has m 0x80 ≡ leb 128 m
top_bit m h = ground (arith, bit_and_power 7 m, h)

module _ {P A : Type 0} where
  -- A line that does not end the entry.
  pub finish_line-middle :
      (i m : ℕ) (self : SysBus P A)
      → (self.dma i).ntrl ≡ m
      → 0 < m
      → m < 2 ^ 8
      → (m - 1) % 128 ≢ 0
      → finish_line i self
        ≡ set_hdma i
            (record { active = (self.hdma i).active; do_transfer = leb 128 (m - 1) })
            (set_channel i (λ ch. record ch { ntrl = m - 1 }) self)
  unfolding finish_line
  finish_line-middle i m self e low high n =
      let counted : sub8 (self.dma i).ntrl 1 ≡ m - 1 = omega (arith, e, low, high) in
      if_false (bit_and (sub8 (self.dma i).ntrl 1) 0x7F == 0) _ _
        (ground (arith, counted, low_bits (sub8 (self.dma i).ntrl 1), n))
      ∙ ap
          (λ (v : ℕ).
            set_hdma i (record { active = (self.hdma i).active; do_transfer = has v 0x80 })
              (set_channel i (λ ch. record ch { ntrl = v }) self))
          counted
      ∙ ap
          (λ (t : Bool).
            set_hdma i (record { active = (self.hdma i).active; do_transfer = t })
              (set_channel i (λ ch. record ch { ntrl = m - 1 }) self))
          (top_bit (m - 1) (omega (arith, high)))

  pub finish_line-last :
      (i m : ℕ) (self : SysBus P A)
      → (self.dma i).ntrl ≡ m
      → 0 < m
      → m < 2 ^ 8
      → (m - 1) % 128 ≡ 0
      → finish_line i self ≡ load_entry i (set_channel i (λ ch. record ch { ntrl = m - 1 }) self)
  unfolding finish_line
  finish_line-last i m self e low high last =
      let counted : sub8 (self.dma i).ntrl 1 ≡ m - 1 = omega (arith, e, low, high) in
      if_true (bit_and (sub8 (self.dma i).ntrl 1) 0x7F == 0) _ _
        (ground (arith, counted, low_bits (sub8 (self.dma i).ntrl 1), last))
      ∙ ap (λ (v : ℕ). load_entry i (set_channel i (λ ch. record ch { ntrl = v }) self)) counted
