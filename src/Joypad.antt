-- ===== src/Joypad.antt =====
-- The controller port, crates/refwork-emu/src/joypad.rs.
pub mod Layout
pub mod Serial
pub mod Examples
use reference_workload.Base.{
  ℕ, ◌+◌, ◌-◌, ◌/◌, ◌^◌, Bool, true, false, ◌&&◌, not, nonzero, if◌then◌else◌, leb, u8, u16,
  bit_and, bit_or, ◌<<<◌, ◌>>>◌,
}

pub record Joypad : Type 0 where
  pub pad : ℕ  -- u16
  pub joy1 : ℕ  -- u16
  pub strobe : Bool
  pub shift : ℕ  -- u8

unfoldable pub new : Joypad
new = record { pad = 0; joy1 = 0; strobe = false; shift = 0 }

-- `(self.pad >> k) & 1`.
abbrev pub button : ℕ → ℕ → ℕ
button k pad = bit_and (pad >>> k) 1

-- JOY1L and JOY1H of a pad word.
unfoldable pub native_low : ℕ → ℕ
native_low pad =
    bit_or
      (bit_or (bit_or (u16 (button 0 pad <<< 7)) (u16 (button 2 pad <<< 6)))
        (u16 (button 4 pad <<< 5)))
      (u16 (button 5 pad <<< 4))

unfoldable pub native_high : ℕ → ℕ
native_high pad =
    bit_or
      (bit_or
        (bit_or
          (bit_or
            (bit_or
              (bit_or (bit_or (u16 (button 1 pad <<< 7)) (u16 (button 3 pad <<< 6)))
                (u16 (button 11 pad <<< 5)))
              (u16 (button 10 pad <<< 4)))
            (u16 (button 6 pad <<< 3)))
          (u16 (button 7 pad <<< 2)))
        (u16 (button 8 pad <<< 1)))
      (button 9 pad)

unfoldable pub native_word : Joypad → ℕ
unfolding native_low native_high
native_word self = bit_or (u16 (native_high self.pad <<< 8)) (native_low self.pad)

unfoldable pub auto_read : Joypad → Joypad
auto_read self = record self { joy1 = native_word self; shift = 0 }

unfoldable pub write_strobe : ℕ → Joypad → Joypad
write_strobe value self =
    let new_strobe = nonzero (bit_and value 1) in
    let self' =
      if self.strobe && not new_strobe
      then record self { joy1 = native_word self; shift = 0 }
      else self in
    record self' { strobe = new_strobe }

unfoldable pub read_serial : Joypad → ℕ × Joypad
read_serial self =
    if self.strobe
    then (u8 (bit_and (self.joy1 >>> 15) 1), self)
    else if leb 16 self.shift
    then (1, self)
    else (
      u8 (bit_and (self.joy1 / 2 ^ (15 - self.shift)) 1),
      record self { shift = self.shift + 1 },
    )
