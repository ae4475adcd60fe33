-- ===== src/Cpu/Logic/Safe.antt =====
-- The register-only operations keep the register invariant, and give words.
use reference_workload.Base.{
  ℕ, ◌^◌, ◌<◌, ◌≡◌, false, arith, u8, bit_and, bit_or, low_byte_lem, with_low,
}
use reference_workload.Base.Bits.{bit_or-lt, bit_xor-lt, bit_and-le}
use reference_workload.Cpu.Registers.{Cpu, m8, x8, set_nz8, set_nz16}
use reference_workload.Cpu.Registers.WellFormed.{
  IsWf, set_flag-IsWf, set_nz8-IsWf, set_nz16-IsWf, set_a-IsWf, set_x-IsWf, set_y-IsWf, v-IsStatus,
  z-IsStatus, n-IsStatus,
}
use reference_workload.Cpu.Alu.Safe.{if-IsWf, with_low-fits}
use reference_workload.Cpu.Logic.{
  set_a_m, set_x_reg, set_y_reg, set_x_reg_keepwidth, set_y_reg_keepwidth, op_and, op_ora, op_eor,
  op_bit, bit_immediate, inc_a, dec_a, inx, dex, iny, dey,
}

low_byte-fits : (v : ℕ) → bit_and v 0xFF < 2 ^ 8
low_byte-fits v = omega (arith, low_byte_lem v)

-- `(a & 0xFF00) | (v & 0x00FF)`.
pub low_from-fits : (a v : ℕ) → a < 2 ^ 16 → bit_or (bit_and a 0xFF00) (bit_and v 0x00FF) < 2 ^ 16
low_from-fits a v h =
    bit_or-lt 16 _ _ (omega (arith, bit_and-le a 0xFF00)) (omega (arith, low_byte_lem v))

-- The pattern of the 8-bit and 16-bit writes to A.
a8-IsWf :
    (v : ℕ) (r : Cpu) → v < 2 ^ 8 → IsWf r → IsWf (set_nz8 v (record r { a = with_low r.a v }))
a8-IsWf v r h w = set_nz8-IsWf _ _ (set_a-IsWf r w _ (with_low-fits r.a v w.a_fits h))

a16-IsWf : (v : ℕ) (r : Cpu) → v < 2 ^ 16 → IsWf r → IsWf (set_nz16 v (record r { a = v }))
a16-IsWf v r h w = set_nz16-IsWf _ _ (set_a-IsWf r w v h)

x8-IsWf : (u v : ℕ) (r : Cpu) → v < 2 ^ 8 → IsWf r → IsWf (set_nz8 u (record r { x = v }))
x8-IsWf u v r h w = set_nz8-IsWf _ _ (set_x-IsWf r w v (omega arith) (λ _. h))

x16-IsWf :
    (v : ℕ) (r : Cpu) → v < 2 ^ 16 → x8 r ≡ false → IsWf r → IsWf (set_nz16 v (record r { x = v }))
x16-IsWf v r h wide w = set_nz16-IsWf _ _ (set_x-IsWf r w v h (λ narrow. cc))

y8-IsWf : (u v : ℕ) (r : Cpu) → v < 2 ^ 8 → IsWf r → IsWf (set_nz8 u (record r { y = v }))
y8-IsWf u v r h w = set_nz8-IsWf _ _ (set_y-IsWf r w v (omega arith) (λ _. h))

y16-IsWf :
    (v : ℕ) (r : Cpu) → v < 2 ^ 16 → x8 r ≡ false → IsWf r → IsWf (set_nz16 v (record r { y = v }))
y16-IsWf v r h wide w = set_nz16-IsWf _ _ (set_y-IsWf r w v h (λ narrow. cc))

pub set_a_m-IsWf : (v : ℕ) (r : Cpu) → v < 2 ^ 16 → IsWf r → IsWf (set_a_m v r)
unfolding set_a_m
set_a_m-IsWf v r h w =
    if-IsWf (m8 r) (λ _. set_nz8-IsWf _ _ (set_a-IsWf r w _ (low_from-fits r.a v w.a_fits)))
      (λ _. a16-IsWf v r h w)

pub set_x_reg-IsWf : (v : ℕ) (r : Cpu) → v < 2 ^ 16 → IsWf r → IsWf (set_x_reg v r)
unfolding set_x_reg
set_x_reg-IsWf v r h w =
    if-IsWf (x8 r) (λ _. x8-IsWf _ _ r (low_byte-fits v) w) (λ wide. x16-IsWf v r h wide w)

pub set_x_reg_keepwidth-IsWf :
    (v : ℕ) (r : Cpu) → v < 2 ^ 16 → IsWf r → IsWf (set_x_reg_keepwidth v r)
unfolding set_x_reg_keepwidth
set_x_reg_keepwidth-IsWf v r h w =
    if-IsWf (x8 r) (λ _. x8-IsWf _ _ r (low_byte-fits v) w) (λ wide. x16-IsWf v r h wide w)

pub set_y_reg-IsWf : (v : ℕ) (r : Cpu) → v < 2 ^ 16 → IsWf r → IsWf (set_y_reg v r)
unfolding set_y_reg
set_y_reg-IsWf v r h w =
    if-IsWf (x8 r) (λ _. y8-IsWf _ _ r (low_byte-fits v) w) (λ wide. y16-IsWf v r h wide w)

pub set_y_reg_keepwidth-IsWf :
    (v : ℕ) (r : Cpu) → v < 2 ^ 16 → IsWf r → IsWf (set_y_reg_keepwidth v r)
unfolding set_y_reg_keepwidth
set_y_reg_keepwidth-IsWf v r h w =
    if-IsWf (x8 r) (λ _. y8-IsWf _ _ r (low_byte-fits v) w) (λ wide. y16-IsWf v r h wide w)

pub op_and-IsWf : (m : ℕ) (r : Cpu) → m < 2 ^ 16 → IsWf r → IsWf (op_and m r)
unfolding op_and
op_and-IsWf m r h w =
    if-IsWf (m8 r) (λ _. a8-IsWf _ r (omega (arith, bit_and-le (u8 r.a) (u8 m))) w)
      (λ _. a16-IsWf _ r (omega (arith, bit_and-le r.a m, w.a_fits)) w)

pub op_ora-IsWf : (m : ℕ) (r : Cpu) → m < 2 ^ 16 → IsWf r → IsWf (op_ora m r)
unfolding op_ora
op_ora-IsWf m r h w =
    if-IsWf (m8 r) (λ _. a8-IsWf _ r (bit_or-lt 8 _ _ (omega arith) (omega arith)) w)
      (λ _. a16-IsWf _ r (bit_or-lt 16 _ _ w.a_fits h) w)

pub op_eor-IsWf : (m : ℕ) (r : Cpu) → m < 2 ^ 16 → IsWf r → IsWf (op_eor m r)
unfolding op_eor
op_eor-IsWf m r h w =
    if-IsWf (m8 r) (λ _. a8-IsWf _ r (bit_xor-lt 8 _ _ (omega arith) (omega arith)) w)
      (λ _. a16-IsWf _ r (bit_xor-lt 16 _ _ w.a_fits h) w)

pub op_bit-IsWf : (m : ℕ) (r : Cpu) → IsWf r → IsWf (op_bit m r)
unfolding op_bit
op_bit-IsWf m r w =
    if-IsWf (m8 r)
      (λ _.
        set_flag-IsWf _ _ _ v-IsStatus
          (set_flag-IsWf _ _ _ n-IsStatus (set_flag-IsWf _ _ _ z-IsStatus w)))
      (λ _.
        set_flag-IsWf _ _ _ v-IsStatus
          (set_flag-IsWf _ _ _ n-IsStatus (set_flag-IsWf _ _ _ z-IsStatus w)))

pub bit_immediate-IsWf : (v : ℕ) (r : Cpu) → IsWf r → IsWf (bit_immediate v r)
unfolding bit_immediate
bit_immediate-IsWf v r w = set_flag-IsWf _ _ _ z-IsStatus w

pub inc_a-IsWf : (r : Cpu) → IsWf r → IsWf (inc_a r)
unfolding inc_a
inc_a-IsWf r w =
    if-IsWf (m8 r) (λ _. a8-IsWf _ r (omega arith) w) (λ _. a16-IsWf _ r (omega arith) w)

pub dec_a-IsWf : (r : Cpu) → IsWf r → IsWf (dec_a r)
unfolding dec_a
dec_a-IsWf r w =
    if-IsWf (m8 r) (λ _. a8-IsWf _ r (omega arith) w) (λ _. a16-IsWf _ r (omega arith) w)

pub inx-IsWf : (r : Cpu) → IsWf r → IsWf (inx r)
unfolding inx
inx-IsWf r w =
    if-IsWf (x8 r) (λ _. x8-IsWf _ _ r (omega arith) w) (λ wide. x16-IsWf _ r (omega arith) wide w)

pub dex-IsWf : (r : Cpu) → IsWf r → IsWf (dex r)
unfolding dex
dex-IsWf r w =
    if-IsWf (x8 r) (λ _. x8-IsWf _ _ r (omega arith) w) (λ wide. x16-IsWf _ r (omega arith) wide w)

pub iny-IsWf : (r : Cpu) → IsWf r → IsWf (iny r)
unfolding iny
iny-IsWf r w =
    if-IsWf (x8 r) (λ _. y8-IsWf _ _ r (omega arith) w) (λ wide. y16-IsWf _ r (omega arith) wide w)

pub dey-IsWf : (r : Cpu) → IsWf r → IsWf (dey r)
unfolding dey
dey-IsWf r w =
    if-IsWf (x8 r) (λ _. y8-IsWf _ _ r (omega arith) w) (λ wide. y16-IsWf _ r (omega arith) wide w)
