-- ===== src/Cpu/Exec/Safe/Transfers.antt =====
-- The register functions of Exec/Moves keep the register invariant.
use reference_workload.Base.{
  ℕ, has, Bool, true, false, if◌then◌else◌, arith, ◌==◌, not8, sub16, bit_or, low_byte_lem,
  page_one_lem, ◌>>>◌,
}
use reference_workload.Base.Bits.{bit_or-lt, bit_and-le}
use reference_workload.Cpu.Flags
use reference_workload.Cpu.Registers.{Cpu, m8, x8, set_flag}
use reference_workload.Cpu.Registers.WellFormed.{
  IsFit, IsWf, set_flag-IsWf, set_nz8-IsWf, set_nz16-IsWf, set_nz_m-IsWf, set_a-IsWf, set_s-IsWf,
  set_d-IsWf, set_pc-IsWf, set_x-IsWf, normalize_widths-IsWf, c-IsStatus,
}
use reference_workload.Cpu.Machine.Ensures.{IsByte}
use reference_workload.Cpu.Alu.Safe.{if-IsWf}
use reference_workload.Cpu.Logic.Safe.{low_from-fits}
use reference_workload.Cpu.Exec.Moves.{
  txa, tya, tsx, txs, tcd, tdc, tcs, tsc, load_p, rep, sep, xce, xba, count_down,
}

pub txa-IsWf : (r : Cpu) → IsWf r → IsWf (txa r)
unfolding txa
txa-IsWf r w = set_nz_m-IsWf _ _ (
    if-IsWf (m8 r) (λ _. set_a-IsWf r w _ (low_from-fits r.a r.x w.a_fits))
      (λ _. set_a-IsWf r w r.x w.x_fits))

pub tya-IsWf : (r : Cpu) → IsWf r → IsWf (tya r)
unfolding tya
tya-IsWf r w = set_nz_m-IsWf _ _ (
    if-IsWf (m8 r) (λ _. set_a-IsWf r w _ (low_from-fits r.a r.y w.a_fits))
      (λ _. set_a-IsWf r w r.y w.y_fits))

pub tsx-IsWf : (r : Cpu) → IsWf r → IsWf (tsx r)
unfolding tsx
tsx-IsWf r w =
    if-IsWf (x8 r)
      (λ _.
        set_nz8-IsWf _ _ (
          set_x-IsWf r w _ (omega (arith, low_byte_lem r.s))
            (λ _. omega (arith, low_byte_lem r.s))))
      (λ wide. set_nz16-IsWf _ _ (set_x-IsWf r w r.s w.s_fits (λ narrow. cc)))

pub txs-IsWf : (r : Cpu) → IsWf r → IsWf (txs r)
unfolding txs
txs-IsWf r w =
    if-IsWf r.e (λ _. set_s-IsWf r w _ (omega (arith, page_one_lem r.x)))
      (λ _. set_s-IsWf r w r.x w.x_fits)

pub tcd-IsWf : (r : Cpu) → IsWf r → IsWf (tcd r)
unfolding tcd
tcd-IsWf r w = set_nz16-IsWf _ _ (set_d-IsWf r w r.a w.a_fits)

pub tdc-IsWf : (r : Cpu) → IsWf r → IsWf (tdc r)
unfolding tdc
tdc-IsWf r w = set_nz16-IsWf _ _ (set_a-IsWf r w r.d w.d_fits)

pub tcs-IsWf : (r : Cpu) → IsWf r → IsWf (tcs r)
unfolding tcs
tcs-IsWf r w =
    if-IsWf r.e (λ _. set_s-IsWf r w _ (omega (arith, page_one_lem r.a)))
      (λ _. set_s-IsWf r w r.a w.a_fits)

pub tsc-IsWf : (r : Cpu) → IsWf r → IsWf (tsc r)
unfolding tsc
tsc-IsWf r w = set_nz16-IsWf _ _ (set_a-IsWf r w r.s w.s_fits)

pub forced-IsByte :
    (e : Bool) (p : ℕ) → IsByte p → IsByte (if e then bit_or p (bit_or Flags.m Flags.x) else p)
forced-IsByte true p h = bit_or-lt 8 _ _ h (omega arith)
forced-IsByte false p h = h

pub load_p-IsWf : (p : ℕ) (r : Cpu) → IsByte p → IsFit r → IsWf (load_p p r)
unfolding load_p
load_p-IsWf p r h f = normalize_widths-IsWf _ (omega (arith, forced-IsByte r.e p h))

pub rep-IsWf : (mask : ℕ) (r : Cpu) → IsWf r → IsWf (rep mask r)
unfolding rep
rep-IsWf mask r w = load_p-IsWf _ r (omega (arith, bit_and-le r.p (not8 mask), w.p_fits)) w.fits

pub sep-IsWf : (mask : ℕ) (r : Cpu) → IsByte mask → IsWf r → IsWf (sep mask r)
unfolding sep
sep-IsWf mask r h w = normalize_widths-IsWf _ (omega (arith, bit_or-lt 8 r.p mask w.p_fits h))

pub xce-IsWf : (r : Cpu) → IsWf r → IsWf (xce r)
unfolding xce
xce-IsWf r w =
    let r' = set_flag Flags.c r.e r in
    let w' = set_flag-IsWf Flags.c r.e r c-IsStatus w in
    load_p-IsWf r'.p (record r' { e = has r.p Flags.c }) w'.p_fits (omega (arith, w'.fits))

pub xba-IsWf : (r : Cpu) → IsWf r → IsWf (xba r)
unfolding xba
xba-IsWf r w =
    set_a-IsWf r w _
      (bit_or-lt 16 _ _ (omega (arith, low_byte_lem r.a)) (omega (arith, low_byte_lem (r.a >>> 8))))

pub count_down-IsWf : (r : Cpu) → IsWf r → IsWf (count_down r)
unfolding count_down
count_down-IsWf r w =
    let w' = set_a-IsWf r w (sub16 r.a 1) (omega arith) in
    if-IsWf (r.a == 0) (λ _. w') (λ _. set_pc-IsWf _ w' _ (omega arith))
