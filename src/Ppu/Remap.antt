-- ===== src/Ppu/Remap.antt =====
-- The VRAM address remap loses no word.
use reference_workload.Base.{
  ℕ, zero, suc, ◌+◌, ◌*◌, ◌/◌, ◌%◌, ◌^◌, ◌<◌, ◌≡◌, refl, ap, ◌∙◌, bit_or, arith, ◌==◌,
  if◌then◌else◌,
}
use reference_workload.Base.Bits.{bit_and-ones, bit_and-shifted, bit_or_fields_flip}
use reference_workload.Ppu.{apply_vram_remap}

-- Three fields put together, the top one a multiple of 8 and of `2 ^ k`.
fields_lem :
    (k h top m l a b c : ℕ)
    → a ≡ h * 2 ^ k
    → b ≡ m * 8
    → c ≡ l
    → h * 2 ^ k ≡ top * 8
    → m * 8 < 2 ^ k
    → l < 8
    → bit_or (bit_or a b) c ≡ top * 8 + m * 8 + l
fields_lem k h top m l a b c ea eb ec e p q =
    (λ i. bit_or (bit_or (ea i) (eb i)) (ec i))
    ∙ ap (λ (x : ℕ). bit_or x l) (bit_or_fields_flip k h (m * 8) p)
    ∙ ap (λ (x : ℕ). bit_or x l) {x = h * 2 ^ k + m * 8} {y = (top + m) * 8} (omega (arith, e))
    ∙ bit_or_fields_flip 3 (top + m) l q
    ∙ omega arith

-- Each remap rotates the low bits by three.
remap_8 :
    (addr : ℕ)
    → addr < 2 ^ 16
    → apply_vram_remap addr 1 ≡ addr / 256 * 32 * 8 + addr % 32 * 8 + addr / 32 % 8
unfolding apply_vram_remap
remap_8 addr h =
    fields_lem 8 (addr / 256) (addr / 256 * 32) (addr % 32) (addr / 32 % 8) _ _ _
      (omega (arith, bit_and-shifted 8 addr 255, bit_and-ones 8 (addr / 256), h))
      (omega (arith, bit_and-ones 5 addr))
      (omega (arith, bit_and-shifted 5 addr 7, bit_and-ones 3 (addr / 32))) (omega arith)
      (omega arith) (omega arith)

remap_9 :
    (addr : ℕ)
    → addr < 2 ^ 16
    → apply_vram_remap addr 2 ≡ addr / 512 * 64 * 8 + addr % 64 * 8 + addr / 64 % 8
unfolding apply_vram_remap
remap_9 addr h =
    fields_lem 9 (addr / 512) (addr / 512 * 64) (addr % 64) (addr / 64 % 8) _ _ _
      (omega (arith, bit_and-shifted 9 addr 127, bit_and-ones 7 (addr / 512), h))
      (omega (arith, bit_and-ones 6 addr))
      (omega (arith, bit_and-shifted 6 addr 7, bit_and-ones 3 (addr / 64))) (omega arith)
      (omega arith) (omega arith)

remap_10 :
    (addr : ℕ)
    → addr < 2 ^ 16
    → apply_vram_remap addr 3 ≡ addr / 1024 * 128 * 8 + addr % 128 * 8 + addr / 128 % 8
unfolding apply_vram_remap
remap_10 addr h =
    fields_lem 10 (addr / 1024) (addr / 1024 * 128) (addr % 128) (addr / 128 % 8) _ _ _
      (omega (arith, bit_and-shifted 10 addr 63, bit_and-ones 6 (addr / 1024), h))
      (omega (arith, bit_and-ones 7 addr))
      (omega (arith, bit_and-shifted 7 addr 7, bit_and-ones 3 (addr / 128))) (omega arith)
      (omega arith) (omega arith)

-- The rotations back.
unfoldable pub restore : (addr remap : ℕ) → ℕ
restore addr remap =
    if remap == 0
    then addr
    else if remap == 1
    then addr / 256 * 256 + addr % 8 * 32 + addr / 8 % 32
    else if remap == 2
    then addr / 512 * 512 + addr % 8 * 64 + addr / 8 % 64
    else addr / 1024 * 1024 + addr % 8 * 128 + addr / 8 % 128

-- Every remap of a 16-bit word address can be undone, by rotating the same bits back: a remap moves
-- the words of VRAM about and loses none.
pub restore-apply_vram_remap :
    (addr remap : ℕ)
    → addr < 2 ^ 16
    → remap < 4
    → restore (apply_vram_remap addr remap) remap ≡ addr
unfolding apply_vram_remap restore
restore-apply_vram_remap addr zero h r = refl
restore-apply_vram_remap addr (suc zero) h r = omega (arith, remap_8 addr h)
restore-apply_vram_remap addr (suc (suc zero)) h r = omega (arith, remap_9 addr h)
restore-apply_vram_remap addr (suc (suc (suc zero))) h r = omega (arith, remap_10 addr h)
restore-apply_vram_remap addr (suc (suc (suc (suc remap)))) h r = absurd (omega (arith, r))
