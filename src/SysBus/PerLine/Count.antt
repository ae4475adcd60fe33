-- ===== src/SysBus/PerLine/Count.antt =====
-- The count byte of a HDMA table entry, and the registers of a channel after some of its lines.
use reference_workload.Base.{
  ℕ, suc, ◌+◌, ◌-◌, ◌*◌, ◌%◌, ◌^◌, ◌<◌, ◌≤◌, ◌≡◌, refl, sym, ap, ◌∙◌, Bool, true, false, ◌||◌,
  if◌then◌else◌, if_true, if_false, ◌==◌, ltb, min, has, arith, length,
}
use native.Mathlib.Nat.{suc-mul, zero-mul}
use reference_workload.Dma.{DmaChannel, unit_pattern}
use reference_workload.SysBus.PerLine.{indirect}
use reference_workload.SysBus.PerLine.Pointer.{shift, shift-shift, shift_dmap}

-- The lines that a count byte stands for: its low seven bits, 128 for 0.
unfoldable pub entry_lines : ℕ → ℕ
entry_lines n = if n % 128 == 0 then 128 else n % 128

pub entry_lines_lem :
    (n : ℕ) → 0 < n → (0 < entry_lines n) × (entry_lines n ≤ n) × ((n - entry_lines n) % 128 ≡ 0)
unfolding entry_lines
entry_lines_lem n h = ground (arith, h)

-- An entry transfers on its first line, and in the repeat mode, a count byte above 128, on all.
unfoldable pub transfers_on : ℕ → ℕ → Bool
transfers_on n k = (k == 0) || ltb 128 n

-- The lines among the first `k` that transfer.
unfoldable pub transfers : ℕ → ℕ → ℕ
transfers n k = if ltb 128 n then k else min k 1

transfers_step :
    (n k : ℕ)
    → transfers n (suc k) ≡ (if transfers_on n k then suc (transfers n k) else transfers n k)
unfolding transfers transfers_on
transfers_step n k = ground arith

pub unit_positive : (ch : DmaChannel) → 0 < length (unit_pattern ch.dmap)
unfolding unit_pattern
unit_positive ch = ground arith

-- The channel of an entry with the registers `ch` at its start and the count byte `n`, after `k`
-- lines: the count byte is down by `k`, the data pointer is past the bytes transferred, and no other
-- register has changed.
abbrev pub after_lines : (n k : ℕ) → DmaChannel → DmaChannel
after_lines n k ch =
    record (shift (indirect ch) (transfers n k * length (unit_pattern ch.dmap)) ch) { ntrl = n - k }

shift_zero : (b : Bool) (ch : DmaChannel) → ch.das < 2 ^ 16 → ch.a2a < 2 ^ 16 → shift b 0 ch ≡ ch
shift_zero true ch p q =
    ap (λ (v : ℕ). record ch { das = v }) {x = (ch.das + 0) % 2 ^ 16} {y = ch.das} (omega arith)
shift_zero false ch p q =
    ap (λ (v : ℕ). record ch { a2a = v }) {x = (ch.a2a + 0) % 2 ^ 16} {y = ch.a2a} (omega arith)

shift_ntrl :
    (b : Bool) (m v : ℕ) (ch : DmaChannel)
    → shift b m (record ch { ntrl = v }) ≡ record (shift b m ch) { ntrl = v }
shift_ntrl true m v ch = refl
shift_ntrl false m v ch = refl

-- The bytes of one line more.
pub after_lines-shift :
    (n k : ℕ) (ch : DmaChannel)
    → transfers_on n k ≡ true
    → shift
        (indirect (after_lines n k ch))
        (length (unit_pattern (after_lines n k ch).dmap))
        (after_lines n k ch)
      ≡ record (after_lines n (suc k) ch) { ntrl = n - k }
after_lines-shift n k ch t =
    let b = indirect ch in
    let len = length (unit_pattern ch.dmap) in
    let moved = transfers n k * len in
    let one_more : suc (transfers n k) ≡ transfers n (suc k) =
      sym (transfers_step n k ∙ if_true (transfers_on n k) _ _ t) in
    let total : moved + len ≡ transfers n (suc k) * len =
      sym (suc-mul (transfers n k) len) ∙ ap (λ (c : ℕ). c * len) one_more in
    ap (λ (d : ℕ). shift (has d 0x40) (length (unit_pattern d)) (after_lines n k ch))
      (shift_dmap b moved ch)
    ∙ shift_ntrl b len (n - k) (shift b moved ch)
    ∙ ap (λ (c : DmaChannel). record c { ntrl = n - k }) (shift-shift b moved len ch)
    ∙ ap (λ (m : ℕ). record (shift b m ch) { ntrl = n - k }) total

pub after_lines-same :
    (n k : ℕ) (ch : DmaChannel)
    → transfers_on n k ≡ false
    → after_lines n k ch ≡ record (after_lines n (suc k) ch) { ntrl = n - k }
after_lines-same n k ch f =
    ap
      (λ (c : ℕ). record (shift (indirect ch) (c * length (unit_pattern ch.dmap)) ch) {
        ntrl = n - k;
      })
      (sym (transfers_step n k ∙ if_false (transfers_on n k) _ _ f))

pub after_lines_start :
    (n : ℕ) (ch : DmaChannel)
    → ch.ntrl ≡ n
    → ch.das < 2 ^ 16
    → ch.a2a < 2 ^ 16
    → ch ≡ after_lines n 0 ch
unfolding transfers
after_lines_start n ch e p q =
    let none_yet : 0 ≡ transfers n 0 * length (unit_pattern ch.dmap) =
      sym (zero-mul (length (unit_pattern ch.dmap)))
      ∙ ap (λ (c : ℕ). c * length (unit_pattern ch.dmap)) {x = 0} {y = transfers n 0}
          (ground arith) in
    ap (λ (v : ℕ). record ch { ntrl = v }) {x = ch.ntrl} {y = n - 0} (omega (arith, e))
    ∙ ap (λ (c : DmaChannel). record c { ntrl = n - 0 }) (sym (shift_zero (indirect ch) ch p q))
    ∙ ap (λ (m : ℕ). record (shift (indirect ch) m ch) { ntrl = n - 0 }) none_yet
