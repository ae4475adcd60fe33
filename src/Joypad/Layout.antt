-- ===== src/Joypad/Layout.antt =====
-- The native word of a pad, taken bit by bit from the top, is the buttons in the console's order.
use reference_workload.Base.{
  ℕ, zero, suc, ◌+◌, ◌-◌, ◌*◌, ◌/◌, ◌%◌, ◌^◌, ◌<◌, ◌≤◌, ◌≡◌, ap, ◌∙◌, if_true, leb, arith, u16,
  bit_or, ◌<<<◌, List, [], ◌∷◌, get_or, if◌then◌else◌,
}
use reference_workload.Base.Bits.{bit_and-ones, bit_or_fields_flip}
use reference_workload.Joypad.{Joypad, button, native_low, native_high, native_word}

button_lem : (k pad : ℕ) → button k pad ≡ pad / 2 ^ k % 2
button_lem k pad = bit_and-ones 1 (pad / 2 ^ k)

-- One more field below the fields put together already.
field : (k h lo acc : ℕ) → acc ≡ h * 2 ^ k → lo < 2 ^ k → bit_or acc lo ≡ h * 2 ^ k + lo
field k h lo acc e p = ap (λ (t : ℕ). bit_or t lo) e ∙ bit_or_fields_flip k h lo p

low_lem :
    (a x l r : ℕ)
    → a < 2
    → x < 2
    → l < 2
    → r < 2
    → bit_or (bit_or (bit_or (u16 (a <<< 7)) (u16 (x <<< 6))) (u16 (l <<< 5))) (u16 (r <<< 4))
      ≡ 128 * a + 64 * x + 32 * l + 16 * r
low_lem a x l r p q s t =
    let acc1 = u16 (a <<< 7) in
    let acc2 = bit_or acc1 (u16 (x <<< 6)) in
    let acc3 = bit_or acc2 (u16 (l <<< 5)) in
    let two = field 7 a (u16 (x <<< 6)) acc1 (omega arith) (omega arith) in
    let three = field 6 (2 * a + x) (u16 (l <<< 5)) acc2 (omega (arith, two)) (omega arith) in
    let four =
      field 5 (4 * a + 2 * x + l) (u16 (r <<< 4)) acc3 (omega (arith, three)) (omega arith) in
    omega (arith, four)

high_lem :
    (b y c d up down left right : ℕ)
    → b < 2
    → y < 2
    → c < 2
    → d < 2
    → up < 2
    → down < 2
    → left < 2
    → right < 2
    → bit_or
        (bit_or
          (bit_or
            (bit_or
              (bit_or
                (bit_or (bit_or (u16 (b <<< 7)) (u16 (y <<< 6))) (u16 (c <<< 5)))
                (u16 (d <<< 4)))
              (u16 (up <<< 3)))
            (u16 (down <<< 2)))
          (u16 (left <<< 1)))
        right
      ≡ 16 * (8 * b + 4 * y + 2 * c + d) + 8 * up + 4 * down + 2 * left + right
high_lem b y c d up down left right pb py pc pd pu pv pl pr =
    let acc1 = u16 (b <<< 7) in
    let acc2 = bit_or acc1 (u16 (y <<< 6)) in
    let acc3 = bit_or acc2 (u16 (c <<< 5)) in
    let acc4 = bit_or acc3 (u16 (d <<< 4)) in
    let acc5 = bit_or acc4 (u16 (up <<< 3)) in
    let acc6 = bit_or acc5 (u16 (down <<< 2)) in
    let acc7 = bit_or acc6 (u16 (left <<< 1)) in
    let h = 8 * b + 4 * y + 2 * c + d in
    let two = field 7 b (u16 (y <<< 6)) acc1 (omega arith) (omega arith) in
    let three = field 6 (2 * b + y) (u16 (c <<< 5)) acc2 (omega (arith, two)) (omega arith) in
    let four =
      field 5 (4 * b + 2 * y + c) (u16 (d <<< 4)) acc3 (omega (arith, three)) (omega arith) in
    let five = field 4 h (u16 (up <<< 3)) acc4 (omega (arith, four)) (omega arith) in
    let six = field 3 (2 * h + up) (u16 (down <<< 2)) acc5 (omega (arith, five)) (omega arith) in
    let seven =
      field 2 (4 * h + 2 * up + down) (u16 (left <<< 1)) acc6 (omega (arith, six)) (omega arith) in
    let eight =
      field 1 (8 * h + 4 * up + 2 * down + left) right acc7 (omega (arith, seven)) (omega arith) in
    omega (arith, eight)

button-lt : (k pad : ℕ) → button k pad < 2
button-lt k pad = omega (arith, button_lem k pad)

-- The buttons of a pad word as the console names them: B, Y, Select, Start, Up, Down, Left, Right,
-- A, X, L, R, then four zeros.
unfoldable pub console_order : ℕ → List ℕ
console_order pad =
    pad / 2 % 2
    ∷ pad / 8 % 2
    ∷ pad / 2048 % 2
    ∷ pad / 1024 % 2
    ∷ pad / 64 % 2
    ∷ pad / 128 % 2
    ∷ pad / 256 % 2
    ∷ pad / 512 % 2
    ∷ pad / 1 % 2
    ∷ pad / 4 % 2
    ∷ pad / 16 % 2
    ∷ pad / 32 % 2
    ∷ 0
    ∷ 0
    ∷ 0
    ∷ 0
    ∷ []

-- What the port gives on read number `k` after a latch of `word`.
unfoldable pub taken : ℕ → ℕ → ℕ
taken word k = if leb 16 k then 1 else word / 2 ^ (15 - k) % 2

joined :
    (hi lo h l : ℕ) → hi ≡ h → lo ≡ l → h < 256 → l < 256 → bit_or (u16 (hi <<< 8)) lo ≡ 256 * h + l
joined hi lo h l e e' p q =
    omega (arith, e, e', field 8 hi lo (u16 (hi <<< 8)) (omega (arith, e)) (omega (arith, e')))

word_lem :
    (self : Joypad)
    → native_word self
      ≡ 256
          * (16
                * (8 * (self.pad / 2 % 2)
                    + 4 * (self.pad / 8 % 2)
                    + 2 * (self.pad / 2048 % 2)
                    + self.pad / 1024 % 2)
              + 8 * (self.pad / 64 % 2)
              + 4 * (self.pad / 128 % 2)
              + 2 * (self.pad / 256 % 2)
              + self.pad / 512 % 2)
        + (128 * (self.pad / 1 % 2)
            + 64 * (self.pad / 4 % 2)
            + 32 * (self.pad / 16 % 2)
            + 16 * (self.pad / 32 % 2))
unfolding native_word native_low native_high
word_lem self =
    let pad = self.pad in
    let low =
      low_lem (button 0 pad) (button 2 pad) (button 4 pad) (button 5 pad) (button-lt 0 pad)
        (button-lt 2 pad) (button-lt 4 pad) (button-lt 5 pad) in
    let high =
      high_lem (button 1 pad) (button 3 pad) (button 11 pad) (button 10 pad) (button 6 pad)
        (button 7 pad) (button 8 pad) (button 9 pad) (button-lt 1 pad) (button-lt 3 pad)
        (button-lt 11 pad) (button-lt 10 pad) (button-lt 6 pad) (button-lt 7 pad) (button-lt 8 pad)
        (button-lt 9 pad) in
    joined (native_high pad) (native_low pad) _ _
      (high ∙ (λ i.
        16
          * (8 * button_lem 1 pad i
              + 4 * button_lem 3 pad i
              + 2 * button_lem 11 pad i
              + button_lem 10 pad i)
        + 8 * button_lem 6 pad i
        + 4 * button_lem 7 pad i
        + 2 * button_lem 8 pad i
        + button_lem 9 pad i))
      (low ∙ (λ i.
        128 * button_lem 0 pad i
        + 64 * button_lem 2 pad i
        + 32 * button_lem 4 pad i
        + 16 * button_lem 5 pad i))
      (omega arith) (omega arith)

pub taken_late : (word k : ℕ) → 16 ≤ k → taken word k ≡ 1
unfolding taken
taken_late word k h = if_true (leb 16 k) _ _ (ground arith)

taken_packed :
    (k b y c d up down left right a x l r : ℕ)
    → b < 2
    → y < 2
    → c < 2
    → d < 2
    → up < 2
    → down < 2
    → left < 2
    → right < 2
    → a < 2
    → x < 2
    → l < 2
    → r < 2
    → taken
        (256 * (16 * (8 * b + 4 * y + 2 * c + d) + 8 * up + 4 * down + 2 * left + right)
          + (128 * a + 64 * x + 32 * l + 16 * r))
        k
      ≡ get_or (b ∷ y ∷ c ∷ d ∷ up ∷ down ∷ left ∷ right ∷ a ∷ x ∷ l ∷ r ∷ 0 ∷ 0 ∷ 0 ∷ 0 ∷ []) k 1
unfolding taken
taken_packed zero b y c d up down left right a x l r h_b h_y h_c h_d h_up h_down h_left h_right h_a
      h_x h_l h_r =
    omega arith
taken_packed (suc zero) b y c d up down left right a x l r h_b h_y h_c h_d h_up h_down h_left
      h_right h_a h_x h_l h_r =
    omega arith
taken_packed (suc (suc zero)) b y c d up down left right a x l r h_b h_y h_c h_d h_up h_down h_left
      h_right h_a h_x h_l h_r =
    omega arith
taken_packed (suc (suc (suc zero))) b y c d up down left right a x l r h_b h_y h_c h_d h_up h_down
      h_left h_right h_a h_x h_l h_r =
    omega arith
taken_packed (suc (suc (suc (suc zero)))) b y c d up down left right a x l r h_b h_y h_c h_d h_up
      h_down h_left h_right h_a h_x h_l h_r =
    omega arith
taken_packed (suc (suc (suc (suc (suc zero))))) b y c d up down left right a x l r h_b h_y h_c h_d
      h_up h_down h_left h_right h_a h_x h_l h_r =
    omega arith
taken_packed (suc (suc (suc (suc (suc (suc zero)))))) b y c d up down left right a x l r h_b h_y h_c
      h_d h_up h_down h_left h_right h_a h_x h_l h_r =
    omega arith
taken_packed (suc (suc (suc (suc (suc (suc (suc zero))))))) b y c d up down left right a x l r h_b
      h_y h_c h_d h_up h_down h_left h_right h_a h_x h_l h_r =
    omega arith
taken_packed (suc (suc (suc (suc (suc (suc (suc (suc zero)))))))) b y c d up down left right a x l r
      h_b h_y h_c h_d h_up h_down h_left h_right h_a h_x h_l h_r =
    omega arith
taken_packed (suc (suc (suc (suc (suc (suc (suc (suc (suc zero))))))))) b y c d up down left right a
      x l r h_b h_y h_c h_d h_up h_down h_left h_right h_a h_x h_l h_r =
    omega arith
taken_packed (suc (suc (suc (suc (suc (suc (suc (suc (suc (suc zero)))))))))) b y c d up down left
      right a x l r h_b h_y h_c h_d h_up h_down h_left h_right h_a h_x h_l h_r =
    omega arith
taken_packed (suc (suc (suc (suc (suc (suc (suc (suc (suc (suc (suc zero))))))))))) b y c d up down
      left right a x l r h_b h_y h_c h_d h_up h_down h_left h_right h_a h_x h_l h_r =
    omega arith
taken_packed (suc (suc (suc (suc (suc (suc (suc (suc (suc (suc (suc (suc zero)))))))))))) b y c d up
      down left right a x l r h_b h_y h_c h_d h_up h_down h_left h_right h_a h_x h_l h_r =
    omega arith
taken_packed (suc (suc (suc (suc (suc (suc (suc (suc (suc (suc (suc (suc (suc zero))))))))))))) b y
      c d up down left right a x l r h_b h_y h_c h_d h_up h_down h_left h_right h_a h_x h_l h_r =
    omega arith
taken_packed
      (suc (suc (suc (suc (suc (suc (suc (suc (suc (suc (suc (suc (suc (suc zero)))))))))))))) b y c
      d up down left right a x l r h_b h_y h_c h_d h_up h_down h_left h_right h_a h_x h_l h_r =
    omega arith
taken_packed
      (suc (suc (suc (suc (suc (suc (suc (suc (suc (suc (suc (suc (suc (suc (suc zero)))))))))))))))
      b y c d up down left right a x l r h_b h_y h_c h_d h_up h_down h_left h_right h_a h_x h_l
      h_r =
    omega arith
taken_packed
      (suc
        (suc (suc (suc (suc (suc (suc (suc (suc (suc (suc (suc (suc (suc (suc (suc k))))))))))))))))
      b y c d up down left right a x l r h_b h_y h_c h_d h_up h_down h_left h_right h_a h_x h_l
      h_r =
    taken_late _
      (suc
        (suc (suc (suc (suc (suc (suc (suc (suc (suc (suc (suc (suc (suc (suc (suc k))))))))))))))))
      (omega arith)

pub taken_word :
    (self : Joypad) (k : ℕ) → taken (native_word self) k ≡ get_or (console_order self.pad) k 1
unfolding console_order
taken_word self k =
    let pad = self.pad in
    ap (λ (w : ℕ). taken w k) (word_lem self)
    ∙ taken_packed k _ _ _ _ _ _ _ _ _ _ _ _ (omega arith) (omega arith) (omega arith) (omega arith)
        (omega arith) (omega arith) (omega arith) (omega arith) (omega arith) (omega arith)
        (omega arith) (omega arith)
