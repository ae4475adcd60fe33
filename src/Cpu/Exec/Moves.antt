-- ===== src/Cpu/Exec/Moves.antt =====
-- Transfer, stack, flag, block-move and halt arms of `execute`, crates/refwork-emu/src/cpu/exec.rs.
use reference_workload.Base.{
  ℕ, List, [], ◌∷◌, Bool, true, false, if◌then◌else◌, has, ◌==◌, u8, not8, add16, sub16, bit_and,
  bit_or, ◌<<<◌, ◌>>>◌, page_one, long_address,
}
use reference_workload.Cpu.Flags
use reference_workload.Cpu.Registers.{
  Cpu, m8, x8, set_flag, set_nz8, set_nz16, set_nz_m, normalize_widths,
}
use reference_workload.Cpu.Machine.{Bus, Action, pure, gets, ◌>>=◌, ◌>>◌, modify, read, write, idle}
use reference_workload.Cpu.Logic.{
  set_a_m, set_x_reg, set_y_reg, set_x_reg_keepwidth, set_y_reg_keepwidth, step_index_inc,
  step_index_dec,
}
use reference_workload.Cpu.Stack.{
  fetch8, fetch16, push8, pull8, push16, pull16, push8_n, pull8_n, push16_n, pull16_n,
}
use reference_workload.Cpu.Addressing.{read_dp_word}
use reference_workload.Cpu.Exec.Operands.{Arm}

unfoldable pub txa : Cpu → Cpu
txa r =
    let r' =
      if m8 r
      then record r { a = bit_or (bit_and r.a 0xFF00) (bit_and r.x 0x00FF) }
      else record r { a = r.x } in
    set_nz_m r'.a r'

unfoldable pub tya : Cpu → Cpu
tya r =
    let r' =
      if m8 r
      then record r { a = bit_or (bit_and r.a 0xFF00) (bit_and r.y 0x00FF) }
      else record r { a = r.y } in
    set_nz_m r'.a r'

unfoldable pub tsx : Cpu → Cpu
tsx r =
    if x8 r
    then set_nz8 (u8 (bit_and r.s 0x00FF)) (record r { x = bit_and r.s 0x00FF })
    else set_nz16 r.s (record r { x = r.s })

unfoldable pub txs : Cpu → Cpu
txs r = if r.e then record r { s = page_one r.x } else record r { s = r.x }

unfoldable pub tcd : Cpu → Cpu
tcd r = set_nz16 r.a (record r { d = r.a })

unfoldable pub tdc : Cpu → Cpu
tdc r = set_nz16 r.d (record r { a = r.d })

unfoldable pub tcs : Cpu → Cpu
tcs r = if r.e then record r { s = page_one r.a } else record r { s = r.a }

unfoldable pub tsc : Cpu → Cpu
tsc r = set_nz16 r.s (record r { a = r.s })

-- `self.p |= flags::M | flags::X` in emulation mode, then `normalize_widths`.
unfoldable pub load_p : ℕ → Cpu → Cpu
load_p p r =
    normalize_widths (record r { p = if r.e then bit_or p (bit_or Flags.m Flags.x) else p })

unfoldable pub rep : ℕ → Cpu → Cpu
unfolding load_p
rep mask r = load_p (bit_and r.p (not8 mask)) r

unfoldable pub sep : ℕ → Cpu → Cpu
sep mask r = normalize_widths (record r { p = bit_or r.p mask })

unfoldable pub xce : Cpu → Cpu
unfolding load_p
xce r =
    let old_c = has r.p Flags.c in
    let r' = record (set_flag Flags.c r.e r) { e = old_c } in load_p r'.p r'

unfoldable pub xba : Cpu → Cpu
xba r =
    let lo = bit_and r.a 0x00FF in
    let hi = bit_and (r.a >>> 8) 0x00FF in record r { a = bit_or (lo <<< 8) hi }

-- The end of a block-move step: the count falls, and PC goes back unless it was 0.
unfoldable pub count_down : Cpu → Cpu
count_down r =
    let r' = record r { a = sub16 r.a 1 } in
    if r.a == 0 then r' else record r' { pc = sub16 r'.pc 3 }

module _ {S : Type 0} ⦃bus : Bus S⦄ where
  unfoldable pub transfer_arms : List (Arm S)
  transfer_arms =
      (0xAA, modify (λ r. set_x_reg_keepwidth r.a r))
      ∷ (0xA8, modify (λ r. set_y_reg_keepwidth r.a r))
      ∷ (0x8A, modify txa)
      ∷ (0x98, modify tya)
      ∷ (0x9B, modify (λ r. set_y_reg_keepwidth r.x r))
      ∷ (0xBB, modify (λ r. set_x_reg_keepwidth r.y r))
      ∷ (0xBA, modify tsx)
      ∷ (0x9A, modify txs)
      ∷ (0x5B, modify tcd)
      ∷ (0x7B, modify tdc)
      ∷ (0x1B, modify tcs)
      ∷ (0x3B, modify tsc)
      ∷ []

  -- A push or pull of a register whose width is given by a test.
  unfoldable pub push_reg : (Cpu → Bool) → (Cpu → ℕ) → Action S (Unit {0})
  push_reg narrow reg = do
    eight ← gets narrow
    v ← gets reg
    if eight then push8 (u8 v) else push16 v

  unfoldable pub pull_reg : (Cpu → Bool) → (ℕ → Cpu → Cpu) → Action S (Unit {0})
  pull_reg narrow set = do eight ← gets narrow; v ← if eight then pull8 else pull16; modify (set v)

  -- A push of a whole byte or word.
  unfoldable pub push_value : (ℕ → Action S (Unit {0})) → (Cpu → ℕ) → Action S (Unit {0})
  push_value push reg = do v ← gets reg; push v

  unfoldable pub plp : Action S (Unit {0})
  plp = do p ← pull8; modify (load_p p)

  unfoldable pub plb : Action S (Unit {0})
  plb = do v ← pull8_n; modify (λ r. set_nz8 v (record r { dbr = v }))

  unfoldable pub pld : Action S (Unit {0})
  pld = do v ← pull16_n; modify (λ r. set_nz16 v (record r { d = v }))

  unfoldable pub per : Action S (Unit {0})
  per = do disp ← fetch16; idle; target ← gets (λ r. add16 r.pc disp); push16_n target

  unfoldable pub stack_arms : List (Arm S)
  unfolding push_reg pull_reg push_value plp plb pld per
  stack_arms =
      (0x48, push_reg m8 (λ r. r.a))
      ∷ (0x68, pull_reg m8 set_a_m)
      ∷ (0xDA, push_reg x8 (λ r. r.x))
      ∷ (0xFA, pull_reg x8 set_x_reg)
      ∷ (0x5A, push_reg x8 (λ r. r.y))
      ∷ (0x7A, pull_reg x8 set_y_reg)
      ∷ (0x08, push_value push8 (λ r. r.p))
      ∷ (0x28, plp)
      ∷ (0x8B, push_value push8_n (λ r. r.dbr))
      ∷ (0xAB, plb)
      ∷ (0x0B, push_value push16_n (λ r. r.d))
      ∷ (0x2B, pld)
      ∷ (0x4B, push_value push8 (λ r. r.pbr))
      ∷ (0xF4, fetch16 >>= push16_n)
      ∷ (0xD4, read_dp_word >>= push16_n)
      ∷ (0x62, per)
      ∷ []

  -- REP and SEP: the mask byte, an internal cycle, and the new P.
  unfoldable pub masked : (ℕ → Cpu → Cpu) → Action S (Unit {0})
  masked change = do mask ← fetch8; idle; modify (change mask)

  unfoldable pub swap_bytes : Action S (Unit {0})
  unfolding xba
  swap_bytes = do modify xba; idle; modify (λ r. set_nz8 (u8 r.a) r)

  unfoldable pub flag_arms : List (Arm S)
  unfolding masked swap_bytes
  flag_arms =
      (0x18, modify (set_flag Flags.c false))
      ∷ (0x38, modify (set_flag Flags.c true))
      ∷ (0x58, modify (set_flag Flags.i false))
      ∷ (0x78, modify (set_flag Flags.i true))
      ∷ (0xB8, modify (set_flag Flags.v false))
      ∷ (0xD8, modify (set_flag Flags.d false))
      ∷ (0xF8, modify (set_flag Flags.d true))
      ∷ (0xC2, masked rep)
      ∷ (0xE2, masked sep)
      ∷ (0xFB, modify xce)
      ∷ (0xEB, swap_bytes)
      ∷ []

  -- `op_mvn` and `op_mvp`, which differ in the direction of the indexes.
  unfoldable pub block_move : (Cpu → Cpu) → Action S (Unit {0})
  block_move step_index = do
    dst_bank ← fetch8
    src_bank ← fetch8
    modify (λ r. record r { dbr = u8 dst_bank })
    src ← gets (λ r. long_address src_bank r.x)
    dst ← gets (λ r. long_address dst_bank r.y)
    v ← read src
    write dst v
    idle
    idle
    modify step_index
    modify count_down

  unfoldable pub op_mvn : Action S (Unit {0})
  unfolding block_move
  op_mvn = block_move step_index_inc

  unfoldable pub op_mvp : Action S (Unit {0})
  unfolding block_move
  op_mvp = block_move step_index_dec

  -- WAI and STP, which set a latch and take one internal cycle.
  unfoldable pub halt : (Cpu → Cpu) → Action S (Unit {0})
  halt latch = do modify latch; idle

  unfoldable pub wdm : Action S (Unit {0})
  wdm = do signature ← fetch8; pure tt

  unfoldable pub other_arms : List (Arm S)
  unfolding op_mvn op_mvp halt wdm
  other_arms =
      (0x54, op_mvn)
      ∷ (0x44, op_mvp)
      ∷ (0xCB, halt (λ r. record r { waiting = true }))
      ∷ (0xDB, halt (λ r. record r { stopped = true }))
      ∷ (0xEA, pure tt)
      ∷ (0x42, wdm)
      ∷ []
