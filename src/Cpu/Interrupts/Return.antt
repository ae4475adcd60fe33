-- ===== src/Cpu/Interrupts/Return.antt =====
-- RTI undoes interrupt entry, on a bus with memory under the stack.
use reference_workload.Base.{
  ℕ, ◌+◌, ◌^◌, ◌<◌, ◌≡◌, refl, ap, ◌∙◌, List, [], ◌∷◌, Bool, Bool-cases, inl, inr, if_true,
  if_false, false, arith, u8, ◌>>>◌, bit_and, bit_or, low_byte_lem,
}
use reference_workload.Cpu.Flags
use reference_workload.Cpu.Registers.{
  Cpu, x8, force_narrow, clip_indexes, force_page_one, normalize_widths,
}
use reference_workload.Cpu.Registers.WellFormed.{IsWf}
use reference_workload.Cpu.Machine.{Bus, ◌>>=◌, modify, read}
use reference_workload.Cpu.Machine.Ram.{
  IsRam, Runs, Runs-bind, Leaves, Leaves-bind, Runs-gets, Runs-cast, Runs-modify, Runs-else, Holds,
  Apart, Holds-read, Runs-idle,
}
use reference_workload.Cpu.Stack.RoundTrip.{
  IsPointer, below, below-IsPointer, below-apart1, below-apart2, below-apart3, join-halves,
  Runs-push8, Runs-pull8,
}
use reference_workload.Cpu.Interrupts.{
  IntKind, native_vector, enter_handler, load_pc, push_pc, enter_emulated, enter_native,
  service_interrupt,
}
use reference_workload.Cpu.Exec.Control.{restored_status, rti_bank, rti_pulls, op_rti}

clipped_id : (v : ℕ) → v < 2 ^ 8 → bit_and v 0x00FF ≡ v
clipped_id v h = omega (arith, low_byte_lem v)

clip_indexes_id : (r : Cpu) → IsWf r → clip_indexes r ≡ r
unfolding clip_indexes
clip_indexes_id r w = elim (Bool-cases (x8 r)) [
  | inl h ↦
      if_true (x8 r) _ r h
      ∙ (λ i. record r { x = clipped_id r.x (w.narrow_x h) i; y = clipped_id r.y (w.narrow_y h) i })
  | inr h ↦ if_false (x8 r) _ r h
]

-- In native mode, well-formed registers are what `normalize_widths` makes of them.
normalize_native : (r : Cpu) → IsWf r → r.e ≡ false → normalize_widths r ≡ r
unfolding normalize_widths force_narrow force_page_one
normalize_native r w h =
    ap (λ q. force_page_one (clip_indexes q)) (if_false r.e _ r h)
    ∙ ap force_page_one (clip_indexes_id r w)
    ∙ if_false r.e _ r h

module _ {S : Type 0} ⦃bus : Bus S⦄ {mem : ℕ → S → ℕ} {within : ℕ → Type 0}
    (ram : IsRam bus mem within) where
  -- Loading PC from a vector reads unknown bytes, and changes no more than PC.
  Leaves-load_pc :
      (vec : ℕ) (cells : List (ℕ × ℕ)) (r : Cpu)
      → Leaves
          (Holds ram cells)
          (load_pc vec)
          r
          (λ r' b'. ((addr : ℕ) × (r' ≡ record r { pc = addr })) × Holds ram cells b')
  unfolding load_pc ◌>>=◌ read modify
  Leaves-load_pc vec cells r = record {
    at = λ b h. (
      (_, refl),
      Holds-read ram (vec + 1) (bus.bus_read vec b).1 cells (Holds-read ram vec b cells h),
    );
  }

  -- The four stack bytes of native interrupt entry.
  abbrev frame : Cpu → List (ℕ × ℕ)
  frame r =
      let s1 = below r.e r.s in
      let s2 = below r.e s1 in
      (below r.e s2, r.p) ∷ (s2, u8 r.pc) ∷ (s1, u8 (r.pc >>> 8)) ∷ (r.s, r.pbr) ∷ []

  Runs-push_pc :
      (cells : List (ℕ × ℕ)) (r : Cpu)
      → IsPointer r.e r.s
      → within r.s
      → within (below r.e r.s)
      → Apart ram r.s cells
      → Apart ram (below r.e r.s) cells
      → Runs
          (Holds ram cells)
          push_pc
          r
          tt
          (record r { s = below r.e (below r.e r.s) })
          (Holds ram ((below r.e r.s, u8 r.pc) ∷ (r.s, u8 (r.pc >>> 8)) ∷ cells))
  unfolding push_pc
  Runs-push_pc cells r p w w' n n' = Runs-bind _ (Runs-gets _ r) (
      Runs-bind _ (Runs-push8 ram (u8 (r.pc >>> 8)) cells r w (omega arith) n) (
        Runs-bind _ (Runs-gets _ (record r { s = below r.e r.s })) (
          Runs-push8 ram (u8 r.pc) ((r.s, u8 (r.pc >>> 8)) ∷ cells) (record r { s = below r.e r.s })
            w' (omega arith) (below-apart1 r.e r.s p, n'))))

  -- The registers after native entry, but for PC.
  abbrev entered : Cpu → Cpu
  entered r = enter_handler (record r { s = below r.e (below r.e (below r.e (below r.e r.s))) })

  -- The bytes of a native frame lie in the memory.
  pub record IsRoom (e : Bool) (s : ℕ) : Type 0 where
    pub within0 : within s
    pub within1 : within (below e s)
    pub within2 : within (below e (below e s))
    pub within3 : within (below e (below e (below e s)))

  Leaves-enter_native :
      (kind : IntKind) (r : Cpu)
      → IsWf r
      → IsPointer r.e r.s
      → IsRoom r.e r.s
      → Leaves
          (Holds ram [])
          (enter_native kind)
          r
          (λ r' b'. ((addr : ℕ) × (r' ≡ record (entered r) { pc = addr })) × Holds ram (frame r) b')
  unfolding enter_native
  Leaves-enter_native kind r w p room =
      let e = r.e in
      let s0 = r.s in
      let s1 = below e s0 in
      let s2 = below e s1 in
      let s3 = below e s2 in
      let p1 = below-IsPointer e s0 in
      let p2 = below-IsPointer e s1 in
      let r1 : Cpu = record r { s = s1 } in
      let r3 : Cpu = record r { s = s3 } in
      let r4 : Cpu = record r { s = below e s3 } in
      let c1 : List (ℕ × ℕ) = (s0, r.pbr) ∷ [] in
      let c3 : List (ℕ × ℕ) = (s2, u8 r.pc) ∷ (s1, u8 (r.pc >>> 8)) ∷ c1 in
      let apart1 : Apart ram s1 c1 = (below-apart1 e s0 p, tt) in
      let apart2 : Apart ram s2 c1 = (below-apart2 e s0 p, tt) in
      let apart3 : Apart ram s3 c3 =
        (below-apart1 e s2 p2, (below-apart2 e s1 p1, (below-apart3 e s0 p, tt))) in
      Leaves-bind _ _ (Runs-gets _ r) (
        Leaves-bind _ _ (Runs-push8 ram r.pbr [] r room.within0 w.pbr_fits tt) (
          Leaves-bind _ _ (Runs-push_pc c1 r1 p1 room.within1 room.within2 apart1 apart2) (
            Leaves-bind _ _ (Runs-gets _ r3) (
              Leaves-bind _ _ (Runs-push8 ram r.p c3 r3 room.within3 w.p_fits apart3) (
                Leaves-bind _ _ (Runs-modify enter_handler r4)
                  (Leaves-load_pc (native_vector kind) (frame r) (enter_handler r4)))))))

  -- The registers on the way back: all but S, P, PC and PBR are as they were.
  abbrev back : Cpu → ℕ → ℕ → ℕ → ℕ → Cpu
  back r s p pc pbr = record r { s = s; p = p; pc = pc; pbr = pbr }

  -- RTI from below a native frame.
  Runs-op_rti :
      (r : Cpu) (p addr : ℕ)
      → IsWf r
      → r.e ≡ false
      → IsPointer r.e r.s
      → Runs
          (Holds ram (frame r))
          op_rti
          (back r (below r.e (below r.e (below r.e (below r.e r.s)))) p addr 0)
          tt
          r
          (Holds ram [])
  unfolding op_rti rti_pulls rti_bank restored_status
  Runs-op_rti r p addr w h ptr =
      let e = r.e in
      let s0 = r.s in
      let s1 = below e s0 in
      let s2 = below e s1 in
      let s3 = below e s2 in
      let p1 = below-IsPointer e s0 in
      let p2 = below-IsPointer e s1 in
      let p3 = below-IsPointer e s2 in
      let hi = u8 (r.pc >>> 8) in
      let lo = u8 r.pc in
      let c1 : List (ℕ × ℕ) = (s0, r.pbr) ∷ [] in
      let c2 : List (ℕ × ℕ) = (s1, hi) ∷ c1 in
      let c3 : List (ℕ × ℕ) = (s2, lo) ∷ c2 in
      let q4 = back r (below e s3) p addr 0 in
      let whole = join-halves r.pc w.pc_fits in
      Runs-bind _
        (Runs-bind _ (Runs-idle ram (frame r) q4) (
          Runs-bind _ (Runs-idle ram (frame r) q4) (
            Runs-bind _ (Runs-gets _ q4) (
              Runs-bind _ (Runs-pull8 ram s3 r.p c3 q4 p3 refl) (
                Runs-bind _
                  (Runs-cast refl
                    (λ i.
                      back r s3 (if_false e (bit_or (bit_or r.p Flags.m) Flags.x) r.p h i) addr 0)
                    (Runs-modify _ (back r s3 p addr 0)))
                  (Runs-bind _ (Runs-pull8 ram s2 lo c2 (back r s3 r.p addr 0) p2 refl) (
                    Runs-bind _ (Runs-pull8 ram s1 hi c1 (back r s2 r.p addr 0) p1 refl) (
                      Runs-else e _ _ h (
                        Runs-bind _ (Runs-pull8 ram s0 r.pbr [] (back r s1 r.p addr 0) ptr refl) (
                          Runs-bind _
                            (Runs-cast refl (λ i. back r s0 r.p (whole i) 0)
                              (Runs-modify _ (back r s0 r.p addr 0)))
                            (Runs-modify _ (back r s0 r.p r.pc 0))))))))))))
        (Runs-cast refl (normalize_native r w h) (Runs-modify _ r))

  native-IsPointer : (r : Cpu) → IsWf r → r.e ≡ false → IsPointer r.e r.s
  native-IsPointer r w h = record { word = w.s_fits; paged = λ e. ground (arith, e, h) }

  Leaves-service_interrupt :
      (kind : IntKind) (r : Cpu) (post : Cpu → S → Type 0)
      → r.e ≡ false
      → Leaves (Holds ram []) (enter_native kind) r post
      → Leaves (Holds ram []) (service_interrupt kind) r post
  unfolding service_interrupt
  Leaves-service_interrupt kind r post h enter = Leaves-bind _ post (Runs-idle ram [] r) (
      Leaves-bind _ post (Runs-idle ram [] r) (
        Leaves-bind _ post (Runs-gets _ r)
          (rw (if_false r.e (enter_emulated kind) (enter_native kind) h) enter)))

  undo :
      (kind : IntKind) (r : Cpu) (b : S) (addr : ℕ) (b' : S)
      → (service_interrupt kind r b).1 ≡ record (entered r) { pc = addr }
      → op_rti (record (entered r) { pc = addr }) (service_interrupt kind r b).2 ≡ (tt, r, b')
      → ((service_interrupt kind >>= λ _. op_rti) r b).1 ≡ r
  unfolding ◌>>=◌
  undo kind r b addr b' e e' =
      ap (λ q. (op_rti q (service_interrupt kind r b).2).1) e ∙ ap (λ u. u.1) e'

  -- In native mode, whatever bytes the vector holds, RTI straight after the entry of any interrupt
  -- gives every register back as it was before the entry: P with its D and I flags, PC, PBR and S
  -- included. The four bytes of the frame need only lie in the memory.
  pub op_rti-service_interrupt :
      (kind : IntKind) (r : Cpu) (b : S)
      → IsWf r
      → r.e ≡ false
      → IsRoom r.e r.s
      → ((service_interrupt kind >>= λ _. op_rti) r b).1 ≡ r
  unfolding enter_handler
  op_rti-service_interrupt kind r b w h room =
      let post = λ (r' : Cpu) (b' : S).
        ((addr : ℕ) × (r' ≡ record (entered r) { pc = addr })) × Holds ram (frame r) b' in
      let enter = Leaves-enter_native kind r w (native-IsPointer r w h) room in
      let ((addr, e), held) = (Leaves-service_interrupt kind r post h enter).at b tt in
      let (b', e', none_left) =
        (Runs-op_rti r (entered r).p addr w h (native-IsPointer r w h)).at _ held in
      undo kind r b addr b' e e'
