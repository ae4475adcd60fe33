-- ===== src/Joypad/Serial.antt =====
-- The manual serial interface gives the buttons in the console's order.
use reference_workload.Base.{
  ℕ, zero, suc, ◌+◌, ◌-◌, ◌/◌, ◌%◌, ◌^◌, ◌≤◌, ◌≡◌, refl, sym, ap, ◌∙◌, Bool, true, false, if_true,
  if_false, leb, arith, bit_and, get_or, ◌⊎◌, inl, inr, Bool-cases, nonzero, not, ◌&&◌,
  if◌then◌else◌,
}
use reference_workload.Base.Bits.{bit_and-ones}
use reference_workload.Joypad.{Joypad, native_word, write_strobe, read_serial}
use reference_workload.Joypad.Layout.{console_order, taken, taken_late, taken_word}

-- The port after a number of reads.
unfoldable pub reads : ℕ → Joypad → Joypad
reads zero self = self
reads (suc k) self = reads k (read_serial self).1

read_value :
    (self : Joypad) → self.strobe ≡ false → (read_serial self).0 ≡ taken self.joy1 self.shift
unfolding read_serial taken
read_value self h =
    ap (λ (u : ℕ × Joypad). u.0) (if_false self.strobe _ _ h)
    ∙ elim (Bool-cases (leb 16 self.shift)) [
      | inl t ↦
          ap (λ (u : ℕ × Joypad). u.0) (if_true (leb 16 self.shift) _ _ t)
          ∙ sym (if_true (leb 16 self.shift) _ _ t)
      | inr t ↦
          ap (λ (u : ℕ × Joypad). u.0) (if_false (leb 16 self.shift) _ _ t)
          ∙ omega (arith, bit_and-ones 1 (self.joy1 / 2 ^ (15 - self.shift)))
          ∙ sym (if_false (leb 16 self.shift) _ _ t)
    ]

read_shifts :
    (self : Joypad)
    → self.strobe ≡ false
    → ((read_serial self).1 ≡ record self { shift = self.shift + 1 })
      ⊎ ((16 ≤ self.shift) × ((read_serial self).1 ≡ self))
unfolding read_serial
read_shifts self h = elim (Bool-cases (leb 16 self.shift)) [
  | inl t ↦ inr (
    ground (arith, t),
    ap (λ (u : ℕ × Joypad). u.1) (if_false self.strobe _ _ h ∙ if_true (leb 16 self.shift) _ _ t),
  )
  | inr t ↦ inl (
      ap (λ (u : ℕ × Joypad). u.1)
        (if_false self.strobe _ _ h ∙ if_false (leb 16 self.shift) _ _ t))
]

-- Read number `k` from a port with the strobe low.
read_after :
    (k : ℕ) (self : Joypad)
    → self.strobe ≡ false
    → (read_serial (reads k self)).0 ≡ taken self.joy1 (self.shift + k)
unfolding reads
read_after zero self h = read_value self h ∙ ap (taken self.joy1) (omega arith)
read_after (suc k) self h = elim (read_shifts self h) [
  | inl e ↦
      ap (λ j. (read_serial (reads k j)).0) e
      ∙ read_after k (record self { shift = self.shift + 1 }) h
      ∙ ap (taken self.joy1) (omega arith)
  | inr (late, e) ↦
      ap (λ j. (read_serial (reads k j)).0) e
      ∙ read_after k self h
      ∙ taken_late self.joy1 (self.shift + k) (omega (arith, late))
      ∙ sym (taken_late self.joy1 (self.shift + suc k) (omega (arith, late)))
]

odd_value : (v : ℕ) → v % 2 ≡ 1 → nonzero (bit_and v 1) ≡ true
odd_value v h = ground (arith, bit_and-ones 1 v)

even_value : (v : ℕ) → v % 2 ≡ 0 → nonzero (bit_and v 1) ≡ false
even_value v h = ground (arith, bit_and-ones 1 v)

-- The port after a strobe write whose low bit is known.
strobed : Bool → Joypad → Joypad
strobed on self =
    let self' =
      if self.strobe && not on then record self { joy1 = native_word self; shift = 0 } else self in
    record self' { strobe = on }

raised : (self : Joypad) → strobed true self ≡ record self { strobe = true }
unfolding strobed
raised self = elim (Bool-cases self.strobe) [
  | inl h ↦
      ap (λ (j : Joypad). record j { strobe = true })
        (if_false (self.strobe && not true) _ self (ground arith))
  | inr h ↦
      ap (λ (j : Joypad). record j { strobe = true })
        (if_false (self.strobe && not true) _ self (ground arith))
]

write_strobe_lem :
    (v : ℕ) (on : Bool) (self : Joypad)
    → nonzero (bit_and v 1) ≡ on
    → write_strobe v self ≡ strobed on self
unfolding write_strobe strobed
write_strobe_lem v on self e = ap (λ t. strobed t self) e

latch_lem :
    (high low : ℕ) (self : Joypad)
    → high % 2 ≡ 1
    → low % 2 ≡ 0
    → write_strobe low (write_strobe high self)
      ≡ record self { joy1 = native_word self; strobe = false; shift = 0 }
unfolding strobed native_word
latch_lem high low self h l =
    write_strobe_lem low false (write_strobe high self) (even_value low l)
    ∙ ap (strobed false) (write_strobe_lem high true self (odd_value high h) ∙ raised self)

-- A game that writes an odd byte and then an even byte to the strobe, whatever the port held
-- before, reads the latched pad one button at a time in the console's order, then four zeros, then
-- ones for ever: read number `k`, from 0, gives entry `k` of that list, and 1 past its end.
pub read_serial-latch :
    (high low k : ℕ) (self : Joypad)
    → high % 2 ≡ 1
    → low % 2 ≡ 0
    → (read_serial (reads k (write_strobe low (write_strobe high self)))).0
      ≡ get_or (console_order self.pad) k 1
read_serial-latch high low k self h l =
    ap (λ j. (read_serial (reads k j)).0) (latch_lem high low self h l)
    ∙ read_after k (record self { joy1 = native_word self; strobe = false; shift = 0 }) refl
    ∙ ap (taken (native_word self)) (omega arith)
    ∙ taken_word self k
