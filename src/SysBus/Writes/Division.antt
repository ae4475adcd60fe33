-- ===== src/SysBus/Writes/Division.antt =====
-- The divider at $4204-$4206.
use reference_workload.Base.{
  ℕ, ◌+◌, ◌*◌, ◌/◌, ◌^◌, ◌<◌, ◌≡◌, ap, ◌∙◌, if_false, ◌==◌, with_low, with_low_lem, arith,
}
use native.Mathlib.Nat.{mod-add-div', mod-lt}
use reference_workload.Dma.{with_high}
use reference_workload.Dma.Registers.{with_high_lem}
use reference_workload.SysBus.{SysBus}
use reference_workload.SysBus.Writes.{divide, write_operand, write_math}

module _ {P A : Type 0} where
  -- The dividend's two bytes, then the divisor, which starts the division.
  unfoldable pub divided_by : (lo hi v : ℕ) → SysBus P A → SysBus P A
  divided_by lo hi v self = write_math 0x4206 v (write_math 0x4205 hi (write_math 0x4204 lo self))

  dividend : ℕ → ℕ → SysBus P A → SysBus P A
  dividend lo hi self = record self { wrdiv = with_high (with_low self.wrdiv lo) hi }

  divided_by_lem :
      (lo hi v : ℕ) (self : SysBus P A) → divided_by lo hi v self ≡ divide v (dividend lo hi self)
  unfolding divided_by write_math write_operand dividend
  divided_by_lem lo hi v self = λ i. divide v (dividend lo hi self)

  dividend_value :
      (lo hi : ℕ) (self : SysBus P A)
      → lo < 2 ^ 8
      → hi < 2 ^ 8
      → self.wrdiv < 2 ^ 16
      → (dividend lo hi self).wrdiv ≡ hi * 256 + lo
  unfolding dividend
  dividend_value lo hi self p q w =
      omega (arith, with_high_lem (with_low self.wrdiv lo) hi q, with_low_lem self.wrdiv lo w p, p)

  -- Writing a dividend and a nonzero divisor leaves the quotient in RDDIV and the remainder, below
  -- the divisor, in RDMPY, for any bytes and whatever the registers held before.
  pub divided_by-exact :
      (lo hi v : ℕ) (self : SysBus P A)
      → lo < 2 ^ 8
      → hi < 2 ^ 8
      → 0 < v
      → self.wrdiv < 2 ^ 16
      → ((divided_by lo hi v self).rddiv * v + (divided_by lo hi v self).rdmpy ≡ hi * 256 + lo)
        × ((divided_by lo hi v self).rdmpy < v)
  unfolding divide
  divided_by-exact lo hi v self p q h w =
      let after = divided_by_lem lo hi v self ∙ if_false (v == 0) _ _ (ground (arith, h)) in
      let d = (dividend lo hi self).wrdiv in
      let value = dividend_value lo hi self p q w in
      let quotient = ap (λ (s : SysBus P A). s.rddiv) after in
      let rest = ap (λ (s : SysBus P A). s.rdmpy) after in
      (
        ap (λ (x : ℕ). x * v + (divided_by lo hi v self).rdmpy) quotient
            ∙ ap (λ (x : ℕ). d / v * v + x) rest
            ∙ omega (arith, mod-add-div' d v, value),
        omega (arith, rest, mod-lt d h),
      )
