-- ===== src/Cpu/Logic.antt =====
-- The register-only operations of crates/refwork-emu/src/cpu/exec.rs: loads, logic, counting,
-- shifts and rotations.
pub mod Safe
pub mod Shifts
use reference_workload.Base.{
  ℕ, if◌then◌else◌, has, ◌==◌, u8, u16, add8, sub8, add16, sub16, bit_and, bit_or, bit_xor, ◌<<<◌,
  ◌>>>◌, with_low,
}
use reference_workload.Cpu.Flags
use reference_workload.Cpu.Registers.{Cpu, m8, x8, set_flag, set_nz8, set_nz16}
use reference_workload.Cpu.Alu.{carry_in}

unfoldable pub set_a_m : ℕ → Cpu → Cpu
set_a_m v r =
    if m8 r
    then set_nz8 (u8 v) (record r { a = bit_or (bit_and r.a 0xFF00) (bit_and v 0x00FF) })
    else set_nz16 v (record r { a = v })

unfoldable pub set_x_reg : ℕ → Cpu → Cpu
set_x_reg v r =
    if x8 r
    then set_nz8 (u8 v) (record r { x = bit_and v 0x00FF })
    else set_nz16 v (record r { x = v })

unfoldable pub set_y_reg : ℕ → Cpu → Cpu
set_y_reg v r =
    if x8 r
    then set_nz8 (u8 v) (record r { y = bit_and v 0x00FF })
    else set_nz16 v (record r { y = v })

unfoldable pub set_x_reg_keepwidth : ℕ → Cpu → Cpu
set_x_reg_keepwidth v r =
    if x8 r
    then set_nz8 (u8 (bit_and v 0x00FF)) (record r { x = bit_and v 0x00FF })
    else set_nz16 v (record r { x = v })

unfoldable pub set_y_reg_keepwidth : ℕ → Cpu → Cpu
set_y_reg_keepwidth v r =
    if x8 r
    then set_nz8 (u8 (bit_and v 0x00FF)) (record r { y = bit_and v 0x00FF })
    else set_nz16 v (record r { y = v })

unfoldable pub op_and : ℕ → Cpu → Cpu
op_and m r =
    if m8 r
    then (let v = bit_and (u8 r.a) (u8 m) in set_nz8 v (record r { a = with_low r.a v }))
    else let v = bit_and r.a m in set_nz16 v (record r { a = v })

unfoldable pub op_ora : ℕ → Cpu → Cpu
op_ora m r =
    if m8 r
    then (let v = bit_or (u8 r.a) (u8 m) in set_nz8 v (record r { a = with_low r.a v }))
    else let v = bit_or r.a m in set_nz16 v (record r { a = v })

unfoldable pub op_eor : ℕ → Cpu → Cpu
op_eor m r =
    if m8 r
    then (let v = bit_xor (u8 r.a) (u8 m) in set_nz8 v (record r { a = with_low r.a v }))
    else let v = bit_xor r.a m in set_nz16 v (record r { a = v })

unfoldable pub op_bit : ℕ → Cpu → Cpu
op_bit m r =
    if m8 r
    then (let v = bit_and (u8 r.a) (u8 m) in
        set_flag Flags.v (has m 0x40) (set_flag Flags.n (has m 0x80) (set_flag Flags.z (v == 0) r)))
    else let v = bit_and r.a m in
      set_flag Flags.v (has m 0x4000)
        (set_flag Flags.n (has m 0x8000) (set_flag Flags.z (v == 0) r))

-- The immediate form of BIT sets Z alone.
unfoldable pub bit_immediate : ℕ → Cpu → Cpu
bit_immediate v r =
    let m = if m8 r then bit_and (u8 r.a) (u8 v) else bit_and r.a v in
    set_flag Flags.z (if m8 r then u8 m == 0 else m == 0) r

unfoldable pub inc_a : Cpu → Cpu
inc_a r =
    if m8 r
    then (let v = add8 (u8 r.a) 1 in set_nz8 v (record r { a = with_low r.a v }))
    else let v = add16 r.a 1 in set_nz16 v (record r { a = v })

unfoldable pub dec_a : Cpu → Cpu
dec_a r =
    if m8 r
    then (let v = sub8 (u8 r.a) 1 in set_nz8 v (record r { a = with_low r.a v }))
    else let v = sub16 r.a 1 in set_nz16 v (record r { a = v })

unfoldable pub inx : Cpu → Cpu
inx r =
    if x8 r
    then (let v = add8 (u8 r.x) 1 in set_nz8 (u8 v) (record r { x = v }))
    else let v = add16 r.x 1 in set_nz16 v (record r { x = v })

unfoldable pub dex : Cpu → Cpu
dex r =
    if x8 r
    then (let v = sub8 (u8 r.x) 1 in set_nz8 (u8 v) (record r { x = v }))
    else let v = sub16 r.x 1 in set_nz16 v (record r { x = v })

unfoldable pub iny : Cpu → Cpu
iny r =
    if x8 r
    then (let v = add8 (u8 r.y) 1 in set_nz8 (u8 v) (record r { y = v }))
    else let v = add16 r.y 1 in set_nz16 v (record r { y = v })

unfoldable pub dey : Cpu → Cpu
dey r =
    if x8 r
    then (let v = sub8 (u8 r.y) 1 in set_nz8 (u8 v) (record r { y = v }))
    else let v = sub16 r.y 1 in set_nz16 v (record r { y = v })

unfoldable pub alu_inc : ℕ → Cpu → ℕ × Cpu
alu_inc v r =
    if m8 r
    then (let t = add8 (u8 v) 1 in (t, set_nz8 t r))
    else let t = add16 v 1 in (t, set_nz16 t r)

unfoldable pub alu_dec : ℕ → Cpu → ℕ × Cpu
alu_dec v r =
    if m8 r
    then (let t = sub8 (u8 v) 1 in (t, set_nz8 t r))
    else let t = sub16 v 1 in (t, set_nz16 t r)

unfoldable pub alu_asl : ℕ → Cpu → ℕ × Cpu
alu_asl v r =
    if m8 r
    then (let t = u8 (u8 v <<< 1) in (t, set_nz8 t (set_flag Flags.c (has v 0x80) r)))
    else let t = u16 (v <<< 1) in (t, set_nz16 t (set_flag Flags.c (has v 0x8000) r))

unfoldable pub alu_lsr : ℕ → Cpu → ℕ × Cpu
alu_lsr v r =
    if m8 r
    then (let t = u8 v >>> 1 in (t, set_nz8 t (set_flag Flags.c (has v 0x01) r)))
    else let t = v >>> 1 in (t, set_nz16 t (set_flag Flags.c (has v 0x01) r))

unfoldable pub alu_rol : ℕ → Cpu → ℕ × Cpu
alu_rol v r =
    let cin = carry_in r in
    if m8 r
    then (let t = bit_or (u8 (u8 v <<< 1)) (u8 cin) in
        (t, set_nz8 t (set_flag Flags.c (has v 0x80) r)))
    else let t = bit_or (u16 (v <<< 1)) cin in (t, set_nz16 t (set_flag Flags.c (has v 0x8000) r))

unfoldable pub alu_ror : ℕ → Cpu → ℕ × Cpu
alu_ror v r =
    let cin = carry_in r in
    if m8 r
    then (let t = bit_or (u8 v >>> 1) (u8 (u8 cin <<< 7)) in
        (t, set_nz8 t (set_flag Flags.c (has v 0x01) r)))
    else let t = bit_or (v >>> 1) (u16 (cin <<< 15)) in
      (t, set_nz16 t (set_flag Flags.c (has v 0x01) r))

unfoldable pub store_a_m : ℕ → Cpu → Cpu
store_a_m v r =
    if m8 r
    then record r { a = bit_or (bit_and r.a 0xFF00) (bit_and v 0x00FF) }
    else record r { a = v }

-- `asl_a`, `lsr_a`, `rol_a` and `ror_a` apply the primitive to A and store the result.
abbrev on_a : (ℕ → Cpu → ℕ × Cpu) → Cpu → Cpu
on_a f r = let (v, r') = f r.a r in store_a_m v r'

unfoldable pub asl_a : Cpu → Cpu
asl_a r = on_a alu_asl r

unfoldable pub lsr_a : Cpu → Cpu
lsr_a r = on_a alu_lsr r

unfoldable pub rol_a : Cpu → Cpu
rol_a r = on_a alu_rol r

unfoldable pub ror_a : Cpu → Cpu
ror_a r = on_a alu_ror r

unfoldable pub step_index_inc : Cpu → Cpu
step_index_inc r =
    if x8 r
    then record r { x = add8 (u8 r.x) 1; y = add8 (u8 r.y) 1 }
    else record r { x = add16 r.x 1; y = add16 r.y 1 }

unfoldable pub step_index_dec : Cpu → Cpu
step_index_dec r =
    if x8 r
    then record r { x = sub8 (u8 r.x) 1; y = sub8 (u8 r.y) 1 }
    else record r { x = sub16 r.x 1; y = sub16 r.y 1 }
