-- ===== src/Cpu/Alu.antt =====
-- Addition, subtraction and comparison, crates/refwork-emu/src/cpu/alu.rs.
-- A `u32` sum here never reaches 2 ^ 32; `i32` values are bit patterns.
pub mod Safe
pub mod Binary
pub mod Decimal
pub mod Examples
pub mod Compare
pub mod Complement
use reference_workload.Base.{
  ℕ, ◌+◌, ◌-◌, Bool, not, if◌then◌else◌, ltb, leb, has, u8, u16, u32, not8, not16, sub8, sub16,
  sub32, negative, bit_and, bit_or, bit_xor, ◌<<<◌, ◌>>>◌, with_low,
}
use reference_workload.Cpu.Flags
use reference_workload.Cpu.Registers.{Cpu, m8, set_flag, set_nz8, set_nz16}

-- `self.p & flags::C`, as a number.
abbrev pub carry_in : Cpu → ℕ
carry_in r = bit_and r.p Flags.c

-- `(!(a ^ m) & (a ^ res) & 0x80) != 0`, and at 16 bits.
unfoldable pub add_overflow8 : ℕ → ℕ → ℕ → Bool
add_overflow8 a m res = has (bit_and (not8 (bit_xor a m)) (bit_xor a res)) 0x80

unfoldable pub add_overflow16 : ℕ → ℕ → ℕ → Bool
add_overflow16 a m res = has (bit_and (not16 (bit_xor a m)) (bit_xor a res)) 0x8000

-- `((a ^ m) & (a ^ res) & 0x80) != 0`, and at 16 bits.
unfoldable pub sub_overflow8 : ℕ → ℕ → ℕ → Bool
sub_overflow8 a m res = has (bit_and (bit_xor a m) (bit_xor a res)) 0x80

unfoldable pub sub_overflow16 : ℕ → ℕ → ℕ → Bool
sub_overflow16 a m res = has (bit_and (bit_xor a m) (bit_xor a res)) 0x8000

-- The four statements that end each routine: C, V, N and Z, then A.
unfoldable pub finish8 : Bool → Bool → ℕ → Cpu → Cpu
finish8 carry overflow res r =
    let r' = set_nz8 res (set_flag Flags.v overflow (set_flag Flags.c carry r)) in
    record r' { a = with_low r.a res }

unfoldable pub finish16 : Bool → Bool → ℕ → Cpu → Cpu
finish16 carry overflow res r =
    let r' = set_nz16 res (set_flag Flags.v overflow (set_flag Flags.c carry r)) in
    record r' { a = res }

unfoldable pub adc_bin8 : ℕ → Cpu → Cpu
adc_bin8 m r =
    let a = u8 r.a in
    let sum = a + m + carry_in r in
    let res = u8 sum in finish8 (ltb 0xFF sum) (add_overflow8 a m res) res r

unfoldable pub adc_bin16 : ℕ → Cpu → Cpu
adc_bin16 m r =
    let a = r.a in
    let sum = a + m + carry_in r in
    let res = u16 sum in finish16 (ltb 0xFFFF sum) (add_overflow16 a m res) res r

-- `if d > 9 { d += 6; }`
unfoldable pub adjust : ℕ → ℕ
adjust d = if ltb 9 d then d + 6 else d

-- `if d > 0x0F { next += 1; }`
unfoldable pub carry_up : ℕ → ℕ → ℕ
carry_up d next = if ltb 0x0F d then next + 1 else next

unfoldable pub adc_bcd8 : ℕ → Cpu → Cpu
unfolding adjust carry_up
adc_bcd8 m r =
    let a = u8 r.a in
    let lo = adjust (bit_and a 0x0F + bit_and m 0x0F + carry_in r) in
    let hi = carry_up lo (a >>> 4 + m >>> 4) in
    let bin_hi = u8 (hi <<< 4) in
    let overflow = add_overflow8 a m bin_hi in
    let hi' = adjust hi in
    let res = u8 (bit_and (bit_or (hi' <<< 4) (bit_and lo 0x0F)) 0xFF) in
    finish8 (ltb 0x0F hi') overflow res r

-- `x & 0x000F`, `(x >> 4) & 0x000F` and so on: decimal digit `k` of a word.
abbrev pub nibble : ℕ → ℕ → ℕ
nibble k x = bit_and (x >>> k) 0x000F

-- Four digits put together, `as u16`.
abbrev pub pack_digits : ℕ → ℕ → ℕ → ℕ → ℕ
pack_digits d3 d2 d1 d0 = u16 (
    bit_or
      (bit_or (bit_or (bit_and d3 0x0F <<< 12) (bit_and d2 0x0F <<< 8)) (bit_and d1 0x0F <<< 4))
      (bit_and d0 0x0F))

unfoldable pub adc_bcd16 : ℕ → Cpu → Cpu
unfolding adjust carry_up
adc_bcd16 m r =
    let a = r.a in
    let d0 = adjust (bit_and a 0x000F + bit_and m 0x000F + carry_in r) in
    let d1 = adjust (carry_up d0 (nibble 4 a + nibble 4 m)) in
    let d2 = adjust (carry_up d1 (nibble 8 a + nibble 8 m)) in
    let d3 = carry_up d2 (nibble 12 a + nibble 12 m) in
    let bin_hi = u16 (d3 <<< 12) in
    let overflow = add_overflow16 a m bin_hi in
    let d3' = adjust d3 in finish16 (ltb 0x0F d3') overflow (pack_digits d3' d2 d1 d0) r

unfoldable pub op_adc : ℕ → Cpu → Cpu
op_adc operand r =
    if has r.p Flags.d
    then (if m8 r then adc_bcd8 (u8 operand) r else adc_bcd16 operand r)
    else if m8 r
    then adc_bin8 (u8 operand) r
    else adc_bin16 operand r

unfoldable pub sbc_bin8 : ℕ → Cpu → Cpu
sbc_bin8 m r =
    let a = u8 r.a in
    let diff = sub32 (sub32 a m) (1 - carry_in r) in
    let res = u8 diff in finish8 (not (negative diff)) (sub_overflow8 a m res) res r

unfoldable pub sbc_bin16 : ℕ → Cpu → Cpu
sbc_bin16 m r =
    let a = r.a in
    let diff = sub32 (sub32 a m) (1 - carry_in r) in
    let res = u16 diff in finish16 (not (negative diff)) (sub_overflow16 a m res) res r

-- `if d < 0 { d -= 6; }`
unfoldable pub adjust_down : ℕ → ℕ
adjust_down d = if negative d then sub32 d 6 else d

-- `if d < 0 { next -= 1; }`
unfoldable pub borrow_up : ℕ → ℕ → ℕ
borrow_up d next = if negative d then sub32 next 1 else next

unfoldable pub sbc_bcd8 : ℕ → Cpu → Cpu
unfolding adjust_down borrow_up
sbc_bcd8 m r =
    let a = u8 r.a in
    let bin = sub32 (sub32 a m) (1 - carry_in r) in
    let overflow = sub_overflow8 a m (u8 bin) in
    let lo = sub32 (sub32 (bit_and a 0x0F) (bit_and m 0x0F)) (1 - carry_in r) in
    let hi = borrow_up lo (sub32 (a >>> 4) (m >>> 4)) in
    let lo' = adjust_down lo in
    let hi' = adjust_down hi in
    let res = u8 (bit_and (bit_or (u32 (hi' <<< 4)) (bit_and lo' 0x0F)) 0xFF) in
    finish8 (not (negative bin)) overflow res r

unfoldable pub sbc_bcd16 : ℕ → Cpu → Cpu
unfolding adjust_down borrow_up
sbc_bcd16 m r =
    let a = r.a in
    let bin = sub32 (sub32 a m) (1 - carry_in r) in
    let overflow = sub_overflow16 a m (u16 bin) in
    let d0 = sub32 (sub32 (bit_and a 0x0F) (bit_and m 0x0F)) (1 - carry_in r) in
    let d1 = borrow_up d0 (sub32 (nibble 4 a) (nibble 4 m)) in
    let d2 = borrow_up d1 (sub32 (nibble 8 a) (nibble 8 m)) in
    let d3 = borrow_up d2 (sub32 (nibble 12 a) (nibble 12 m)) in
    let res = pack_digits (adjust_down d3) (adjust_down d2) (adjust_down d1) (adjust_down d0) in
    finish16 (not (negative bin)) overflow res r

unfoldable pub op_sbc : ℕ → Cpu → Cpu
op_sbc operand r =
    if has r.p Flags.d
    then (if m8 r then sbc_bcd8 (u8 operand) r else sbc_bcd16 operand r)
    else if m8 r
    then sbc_bin8 (u8 operand) r
    else sbc_bin16 operand r

unfoldable pub op_compare : ℕ → ℕ → Bool → Cpu → Cpu
op_compare reg m eight r =
    if eight
    then set_nz8 (sub8 (u8 reg) (u8 m)) (set_flag Flags.c (leb (u8 m) (u8 reg)) r)
    else set_nz16 (sub16 reg m) (set_flag Flags.c (leb m reg) r)
