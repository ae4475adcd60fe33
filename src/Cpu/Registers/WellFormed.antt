-- ===== src/Cpu/Registers/WellFormed.antt =====
-- The register invariant of the CPU, and that the register methods keep it.
use reference_workload.Base.{
  ℕ, ◌^◌, ◌<◌, ◌≡◌, Bool, true, false, ◌==◌, bit, bit_or, arith, sym, ◌∙◌, Bool-cases, inl, inr,
  not8, low_byte_lem, page_one_lem,
}
use reference_workload.Base.Bits.{bit_and_power, bit-bit_and, bit-bit_or, bit_or-lt, bit_and-le}
use reference_workload.Cpu.Flags
use reference_workload.Cpu.Registers.{
  Cpu, m8, x8, with_flag, set_flag, set_nz8, set_nz16, set_nz_m, force_narrow, clip_indexes,
  force_page_one, normalize_widths,
}

-- Every register is within its machine width.
pub record IsFit (r : Cpu) : Type 0 where
  pub a_fits : r.a < 2 ^ 16
  pub x_fits : r.x < 2 ^ 16
  pub y_fits : r.y < 2 ^ 16
  pub s_fits : r.s < 2 ^ 16
  pub d_fits : r.d < 2 ^ 16
  pub dbr_fits : r.dbr < 2 ^ 8
  pub pbr_fits : r.pbr < 2 ^ 8
  pub pc_fits : r.pc < 2 ^ 16
  pub p_fits : r.p < 2 ^ 8

-- Also, 8-bit index registers have a zero high byte, and emulation mode has 8-bit widths.
pub record IsWf (r : Cpu) : Type 0 where
  pub fits : IsFit r
  pub open fits use *
  pub narrow_x : x8 r ≡ true → r.x < 2 ^ 8
  pub narrow_y : x8 r ≡ true → r.y < 2 ^ 8
  pub emulated_m : r.e ≡ true → m8 r ≡ true
  pub emulated_x : r.e ≡ true → x8 r ≡ true

-- A flag mask that leaves the width flags alone.
pub record IsStatus (mask : ℕ) : Type 0 where
  pub byte : mask < 2 ^ 8
  pub not_x : bit 4 mask ≡ 0
  pub not_m : bit 5 mask ≡ 0

x8-bit : (r : Cpu) → x8 r ≡ (bit 4 r.p == 1)
x8-bit r = ground (arith, bit_and_power 4 r.p)

m8-bit : (r : Cpu) → m8 r ≡ (bit 5 r.p == 1)
m8-bit r = ground (arith, bit_and_power 5 r.p)

with_flag-lt : (mask p : ℕ) (on : Bool) → mask < 2 ^ 8 → p < 2 ^ 8 → with_flag mask on p < 2 ^ 8
unfolding with_flag
with_flag-lt mask p true h k = bit_or-lt 8 p mask k h
with_flag-lt mask p false h k = omega (arith, bit_and-le p (not8 mask))

with_flag-x : (mask p : ℕ) (on : Bool) → IsStatus mask → bit 4 (with_flag mask on p) ≡ bit 4 p
unfolding with_flag
with_flag-x mask p true h = omega (arith, bit-bit_or 4 p mask, h.not_x)
with_flag-x mask p false h = omega (arith, bit-bit_and 4 p (not8 mask), h.not_x, h.byte)

with_flag-m : (mask p : ℕ) (on : Bool) → IsStatus mask → bit 5 (with_flag mask on p) ≡ bit 5 p
unfolding with_flag
with_flag-m mask p true h = omega (arith, bit-bit_or 5 p mask, h.not_m)
with_flag-m mask p false h = omega (arith, bit-bit_and 5 p (not8 mask), h.not_m, h.byte)

-- Setting a status flag keeps the invariant.
pub set_flag-IsWf :
    (mask : ℕ) (on : Bool) (r : Cpu) → IsStatus mask → IsWf r → IsWf (set_flag mask on r)
set_flag-IsWf mask on r st w = record {
  fits = omega (arith, with_flag-lt mask r.p on st.byte w.p_fits);
  narrow_x = λ h. w.narrow_x (same_x ∙ h);
  narrow_y = λ h. w.narrow_y (same_x ∙ h);
  emulated_m = λ h. sym same_m ∙ w.emulated_m h;
  emulated_x = λ h. sym same_x ∙ w.emulated_x h;
}
  where
    same_x : x8 r ≡ x8 (set_flag mask on r)
    same_x = ground (arith, x8-bit r, x8-bit (set_flag mask on r), with_flag-x mask r.p on st)

    same_m : m8 r ≡ m8 (set_flag mask on r)
    same_m = ground (arith, m8-bit r, m8-bit (set_flag mask on r), with_flag-m mask r.p on st)

pub c-IsStatus : IsStatus Flags.c
c-IsStatus = omega arith

pub z-IsStatus : IsStatus Flags.z
z-IsStatus = omega arith

pub i-IsStatus : IsStatus Flags.i
i-IsStatus = omega arith

pub d-IsStatus : IsStatus Flags.d
d-IsStatus = omega arith

pub v-IsStatus : IsStatus Flags.v
v-IsStatus = omega arith

pub n-IsStatus : IsStatus Flags.n
n-IsStatus = omega arith

pub ruleset statuses = (c-IsStatus, z-IsStatus, i-IsStatus, d-IsStatus, v-IsStatus, n-IsStatus)

pub set_nz8-IsWf : (v : ℕ) (r : Cpu) → IsWf r → IsWf (set_nz8 v r)
set_nz8-IsWf v r w = set_flag-IsWf _ _ _ n-IsStatus (set_flag-IsWf _ _ _ z-IsStatus w)

pub set_nz16-IsWf : (v : ℕ) (r : Cpu) → IsWf r → IsWf (set_nz16 v r)
set_nz16-IsWf v r w = set_flag-IsWf _ _ _ n-IsStatus (set_flag-IsWf _ _ _ z-IsStatus w)

pub set_nz_m-IsWf : (v : ℕ) (r : Cpu) → IsWf r → IsWf (set_nz_m v r)
unfolding set_nz_m
set_nz_m-IsWf v r w = elim (Bool-cases (m8 r)) [
  | inl h ↦ rw h (set_nz8-IsWf _ r w)
  | inr h ↦ rw h (set_nz16-IsWf _ r w)
]

-- A write to one register keeps the invariant if the value fits.
module _ (r : Cpu) (w : IsWf r) (v : ℕ) where
  pub set_a-IsWf : v < 2 ^ 16 → IsWf (record r { a = v })
  set_a-IsWf h = ground arith

  pub set_s-IsWf : v < 2 ^ 16 → IsWf (record r { s = v })
  set_s-IsWf h = ground arith

  pub set_d-IsWf : v < 2 ^ 16 → IsWf (record r { d = v })
  set_d-IsWf h = ground arith

  pub set_pc-IsWf : v < 2 ^ 16 → IsWf (record r { pc = v })
  set_pc-IsWf h = ground arith

  pub set_dbr-IsWf : v < 2 ^ 8 → IsWf (record r { dbr = v })
  set_dbr-IsWf h = ground arith

  pub set_pbr-IsWf : v < 2 ^ 8 → IsWf (record r { pbr = v })
  set_pbr-IsWf h = ground arith

  pub set_x-IsWf : v < 2 ^ 16 → (x8 r ≡ true → v < 2 ^ 8) → IsWf (record r { x = v })
  set_x-IsWf h k = ground arith

  pub set_y-IsWf : v < 2 ^ 16 → (x8 r ≡ true → v < 2 ^ 8) → IsWf (record r { y = v })
  set_y-IsWf h k = ground arith

-- After the P or E register was written, `normalize_widths` gives the invariant back.
force_narrow-IsFit : (r : Cpu) → IsFit r → IsFit (force_narrow r)
unfolding force_narrow
force_narrow-IsFit r f = ground (arith, bit_or-lt 8 r.p 0x30)

force_narrow-emulated :
    (r : Cpu)
    → (force_narrow r).e ≡ true
    → (m8 (force_narrow r) ≡ true) × (x8 (force_narrow r) ≡ true)
unfolding force_narrow
force_narrow-emulated r h = ground (
  arith,
  bit_and_power 4 (bit_or r.p 0x30),
  bit_and_power 5 (bit_or r.p 0x30),
  bit-bit_or 4 r.p 0x30,
  bit-bit_or 5 r.p 0x30,
)

clip_indexes-IsWf :
    (r : Cpu) → IsFit r → (r.e ≡ true → (m8 r ≡ true) × (x8 r ≡ true)) → IsWf (clip_indexes r)
unfolding clip_indexes
clip_indexes-IsWf r f h = ground (arith, low_byte_lem r.x, low_byte_lem r.y)

pub force_page_one-IsWf : (r : Cpu) → IsWf r → IsWf (force_page_one r)
unfolding force_page_one
force_page_one-IsWf r w = ground (arith, page_one_lem r.s)

pub normalize_widths-IsWf : (r : Cpu) → IsFit r → IsWf (normalize_widths r)
unfolding normalize_widths
normalize_widths-IsWf r f =
    force_page_one-IsWf _
      (clip_indexes-IsWf (force_narrow r) (force_narrow-IsFit r f) (force_narrow-emulated r))
