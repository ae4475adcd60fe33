-- ===== src/Cpu/Addressing/Safe.antt =====
-- Effective addresses keep the register invariant, and reach 24-bit addresses only.
use reference_workload.Base.{
  ℕ, ◌+◌, Bool, arith, add16, add32, bit_and, bit_or, ◌<<<◌, low_byte_lem, long_address,
}
use reference_workload.Base.Bits.{bit_or-lt, bit_and-le}
use reference_workload.Cpu.Registers.{Cpu}
use reference_workload.Cpu.Registers.WellFormed.{IsWf}
use reference_workload.Cpu.Machine.{Bus, gets, read}
use reference_workload.Cpu.Machine.Ensures.{
  IsSafeBus, IsByte, IsWord, IsLong, Ensures, Ensures-pure, Ensures-gets, Ensures-bind,
  Ensures-read, Ensures-idle,
}
use reference_workload.Cpu.Stack.Safe.{
  IsWf-IsLoose, join-IsWord, long_address-IsLong, fetch8-Ensures, fetch16-Ensures,
}
use reference_workload.Cpu.Addressing.{
  flat, dp, direct_index, direct_offset, direct_base, ea_direct, ea_direct_indexed, ea_direct_x,
  ea_direct_y, read_dp_ptr16, read_dp_ptr24, read_dp_word, in_data_bank, ea_indirect, ea_indirect_x,
  index_flat, ea_indirect_y, ea_indirect_long, ea_indirect_long_y, ea_absolute, ea_absolute_indexed,
  ea_absolute_x, ea_absolute_y, ea_long, ea_long_x, ea_stack_rel, ea_stack_rel_y,
}
use reference_workload.Cpu.Addressing.Access.{IsEa, mask24_lem, gets-IsAny, idle_if-Ensures}

direct_index-IsWord : (r : Cpu) (off index : ℕ) → IsWf r → IsWord (direct_index r off index)
unfolding direct_index
direct_index-IsWord r off index w = ground (
  arith,
  bit_or-lt 16 (bit_and r.d 0xFF00) (bit_and (add16 off index) 0x00FF),
  bit_and-le r.d 0xFF00,
  low_byte_lem (add16 off index),
)

module _ {S : Type 0} ⦃bus : Bus S⦄ {keep : S → Type 0} (safe : IsSafeBus bus keep) where
  direct_offset-Ensures : Ensures IsWf keep direct_offset IsByte
  unfolding direct_offset
  direct_offset-Ensures = Ensures-bind (fetch8-Ensures IsWf-IsLoose safe) λ off h.
      Ensures-bind (gets-IsAny safe _)
        λ _ _. Ensures-bind (idle_if-Ensures safe _) λ _ _. Ensures-pure off h

  direct_base-Ensures : Ensures IsWf keep direct_base IsWord
  unfolding direct_base
  direct_base-Ensures =
      Ensures-bind direct_offset-Ensures λ off h. Ensures-gets _ (λ r w. omega arith)

  word-IsEa : (a : ℕ) → IsWord a → IsEa (dp a)
  word-IsEa a h = omega arith

  pub ea_direct-Ensures : Ensures IsWf keep ea_direct IsEa
  unfolding ea_direct
  ea_direct-Ensures = search (Ensures-bind, direct_base-Ensures, Ensures-pure, word-IsEa)

  index_at :
      (f : Cpu → ℕ) (off : ℕ) → Ensures IsWf keep (gets (λ r. direct_index r off (f r))) IsWord
  index_at f off = Ensures-gets _ (λ r w. direct_index-IsWord r off (f r) w)

  ea_direct_indexed-Ensures : (f : Cpu → ℕ) → Ensures IsWf keep (ea_direct_indexed f) IsEa
  unfolding ea_direct_indexed
  ea_direct_indexed-Ensures f = Ensures-bind direct_offset-Ensures λ off _.
      Ensures-bind (Ensures-idle safe)
        λ _ _. Ensures-bind (index_at f off) λ addr h. Ensures-pure _ (word-IsEa addr h)

  pub ea_direct_x-Ensures : Ensures IsWf keep ea_direct_x IsEa
  unfolding ea_direct_x
  ea_direct_x-Ensures = ea_direct_indexed-Ensures _

  pub ea_direct_y-Ensures : Ensures IsWf keep ea_direct_y IsEa
  unfolding ea_direct_y
  ea_direct_y-Ensures = ea_direct_indexed-Ensures _

  read_word : (a : ℕ) → IsWord a → Ensures IsWf keep (read a) IsByte
  read_word a h = Ensures-read safe a (omega arith)

  add16-IsWord : (a b : ℕ) → IsWord (add16 a b)
  add16-IsWord a b = omega arith

  read_dp_ptr16-Ensures : (base : ℕ) → IsWord base → Ensures IsWf keep (read_dp_ptr16 base) IsWord
  unfolding read_dp_ptr16
  read_dp_ptr16-Ensures base h = Ensures-bind (read_word base h) λ lo p.
      Ensures-bind (read_word _ (add16-IsWord base 1))
        λ hi q. Ensures-pure _ (join-IsWord lo hi p q)

  join-IsLong :
      (lo mid hi : ℕ)
      → IsByte lo
      → IsByte mid
      → IsByte hi
      → IsLong (bit_or (bit_or lo (mid <<< 8)) (hi <<< 16))
  join-IsLong lo mid hi p q h =
      bit_or-lt 24 _ _ (bit_or-lt 24 _ _ (omega arith) (omega arith)) (omega arith)

  read_dp_ptr24-Ensures : (base : ℕ) → IsWord base → Ensures IsWf keep (read_dp_ptr24 base) IsLong
  unfolding read_dp_ptr24
  read_dp_ptr24-Ensures base h = Ensures-bind (read_word base h) λ lo p.
      Ensures-bind (read_word _ (add16-IsWord base 1)) λ mid q.
        Ensures-bind (read_word _ (add16-IsWord base 2))
          λ hi s. Ensures-pure _ (join-IsLong lo mid hi p q s)

  pub read_dp_word-Ensures : Ensures IsWf keep read_dp_word IsWord
  unfolding read_dp_word
  read_dp_word-Ensures = search (Ensures-bind, direct_base-Ensures, read_dp_ptr16-Ensures)

  in_data_bank-Ensures : (ptr : ℕ) → IsWord ptr → Ensures IsWf keep (in_data_bank ptr) IsLong
  unfolding in_data_bank
  in_data_bank-Ensures ptr h = Ensures-gets _ (λ r w. long_address-IsLong r.dbr ptr w.dbr_fits h)

  flat-IsEa : (a : ℕ) → IsLong a → IsEa (flat a)
  flat-IsEa a h = h

  pub ea_indirect-Ensures : Ensures IsWf keep ea_indirect IsEa
  unfolding ea_indirect
  ea_indirect-Ensures = Ensures-bind direct_base-Ensures λ base h.
      Ensures-bind (read_dp_ptr16-Ensures base h)
        λ ptr p. Ensures-bind (in_data_bank-Ensures ptr p) λ addr q. Ensures-pure _ q

  pub ea_indirect_x-Ensures : Ensures IsWf keep ea_indirect_x IsEa
  unfolding ea_indirect_x
  ea_indirect_x-Ensures = Ensures-bind direct_offset-Ensures λ off _.
      Ensures-bind (Ensures-idle safe) λ _ _. Ensures-bind (index_at (λ r. r.x) off) λ base h.
        Ensures-bind (read_dp_ptr16-Ensures base h)
          λ ptr p. Ensures-bind (in_data_bank-Ensures ptr p) λ addr q. Ensures-pure _ q

  masked_at : (f : Cpu → ℕ) → Ensures IsWf keep (gets (λ r. bit_and (f r) 0xFF_FFFF)) IsLong
  masked_at f = Ensures-gets _ (λ r w. mask24_lem (f r))

  index_flat-Ensures :
      (base : ℕ) (f : Cpu → ℕ) (t : Bool) → Ensures IsWf keep (index_flat base f t) IsEa
  unfolding index_flat
  index_flat-Ensures base f t = Ensures-bind (masked_at (λ r. base + f r)) λ eff h.
      Ensures-bind (gets-IsAny safe _)
        λ _ _. Ensures-bind (idle_if-Ensures safe _) λ _ _. Ensures-pure _ h

  pub ea_indirect_y-Ensures : (t : Bool) → Ensures IsWf keep (ea_indirect_y t) IsEa
  unfolding ea_indirect_y
  ea_indirect_y-Ensures t = Ensures-bind direct_base-Ensures λ base h.
      Ensures-bind (read_dp_ptr16-Ensures base h)
        λ ptr p. Ensures-bind (in_data_bank-Ensures ptr p) λ addr q. index_flat-Ensures addr _ t

  pub ea_indirect_long-Ensures : Ensures IsWf keep ea_indirect_long IsEa
  unfolding ea_indirect_long
  ea_indirect_long-Ensures =
      Ensures-bind direct_base-Ensures λ base h.
        Ensures-bind (read_dp_ptr24-Ensures base h) λ ptr p. Ensures-pure _ (mask24_lem ptr)

  pub ea_indirect_long_y-Ensures : Ensures IsWf keep ea_indirect_long_y IsEa
  unfolding ea_indirect_long_y
  ea_indirect_long_y-Ensures = Ensures-bind direct_base-Ensures λ base h.
      Ensures-bind (read_dp_ptr24-Ensures base h)
        λ ptr p. Ensures-bind (masked_at (λ r. add32 ptr r.y)) λ eff q. Ensures-pure _ q

  pub ea_absolute-Ensures : Ensures IsWf keep ea_absolute IsEa
  unfolding ea_absolute
  ea_absolute-Ensures =
      Ensures-bind (fetch16-Ensures IsWf-IsLoose safe)
        λ off h. Ensures-bind (in_data_bank-Ensures off h) λ addr q. Ensures-pure _ q

  ea_absolute_indexed-Ensures :
      (f : Cpu → ℕ) (t : Bool) → Ensures IsWf keep (ea_absolute_indexed f t) IsEa
  unfolding ea_absolute_indexed
  ea_absolute_indexed-Ensures f t =
      Ensures-bind (fetch16-Ensures IsWf-IsLoose safe)
        λ off h. Ensures-bind (in_data_bank-Ensures off h) λ addr q. index_flat-Ensures addr f t

  pub ea_absolute_x-Ensures : (t : Bool) → Ensures IsWf keep (ea_absolute_x t) IsEa
  unfolding ea_absolute_x
  ea_absolute_x-Ensures t = ea_absolute_indexed-Ensures _ t

  pub ea_absolute_y-Ensures : (t : Bool) → Ensures IsWf keep (ea_absolute_y t) IsEa
  unfolding ea_absolute_y
  ea_absolute_y-Ensures t = ea_absolute_indexed-Ensures _ t

  pub ea_long-Ensures : Ensures IsWf keep ea_long IsEa
  unfolding ea_long
  ea_long-Ensures = Ensures-bind (fetch16-Ensures IsWf-IsLoose safe) λ off h.
      Ensures-bind (fetch8-Ensures IsWf-IsLoose safe)
        λ bank k. Ensures-pure _ (long_address-IsLong bank off k h)

  pub ea_long_x-Ensures : Ensures IsWf keep ea_long_x IsEa
  unfolding ea_long_x
  ea_long_x-Ensures = Ensures-bind (fetch16-Ensures IsWf-IsLoose safe) λ off h.
      Ensures-bind (fetch8-Ensures IsWf-IsLoose safe) λ bank k.
        Ensures-bind (masked_at (λ r. add32 (long_address bank off) r.x)) λ eff q. Ensures-pure _ q

  pub ea_stack_rel-Ensures : Ensures IsWf keep ea_stack_rel IsEa
  unfolding ea_stack_rel
  ea_stack_rel-Ensures = Ensures-bind (fetch8-Ensures IsWf-IsLoose safe) λ off h.
      Ensures-bind (Ensures-idle safe) λ _ _.
        Ensures-bind (Ensures-gets {Q = IsWord} (λ r. add16 r.s off) (λ r w. omega arith))
          λ addr q. Ensures-pure _ (word-IsEa addr q)

  pub ea_stack_rel_y-Ensures : Ensures IsWf keep ea_stack_rel_y IsEa
  unfolding ea_stack_rel_y
  ea_stack_rel_y-Ensures = Ensures-bind (fetch8-Ensures IsWf-IsLoose safe) λ off h.
      Ensures-bind (Ensures-idle safe) λ _ _.
        Ensures-bind (Ensures-gets {Q = IsWord} (λ r. add16 r.s off) (λ r w. omega arith)) λ base q.
          Ensures-bind (read_dp_ptr16-Ensures base q) λ ptr p.
            Ensures-bind (in_data_bank-Ensures ptr p) λ addr s.
              Ensures-bind (Ensures-idle safe)
                λ _ _. Ensures-bind (masked_at (λ r. add32 addr r.y)) λ eff t. Ensures-pure _ t
