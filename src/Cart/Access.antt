-- ===== src/Cart/Access.antt =====
-- Reads and writes of a well-formed cartridge.
use reference_workload.Base.{
  ℕ, suc, zero, ◌-◌, ◌<◌, ◌≡◌, ◌≢◌, refl, sym, ap, ◌∙◌, true, false, Bool-cases, inl, inr, if_true,
  if_false, bit_and, List, [], ◌∷◌, length, length-set, bit, get_elem?, set, Option, none, some,
  arith,
}
use mathlib.Core.Path.{subst}
use reference_workload.Base.Bits.{bit_and-le_mask, bit_and-ones, bit-bit_and}
use reference_workload.Cart.{
  Cartridge, open_bus, panicked, byte, in_rom, in_sram, index, rom_offset, sram_offset, read_sram,
  read, write_sram, write,
}

-- Neither memory is empty, and the mask fits the ROM.
abbrev pub HasBytes : Option (List ℕ) → Type 0
HasBytes none = Unit
HasBytes (some s) = 0 < length s

pub record IsValid (self : Cartridge) : Type 0 where
  pub rom_bytes : 0 < length self.rom
  pub masked : self.rom_mask ≡ length self.rom - 1
  pub sram_bytes : HasBytes self.sram

-- A masked index is in bounds.
pub masked-lt : (i len : ℕ) → 0 < len → bit_and i (len - 1) < len
masked-lt i len h = omega (arith, bit_and-le_mask i (len - 1))

index-in_bounds : (bytes : List ℕ) (i : ℕ) → i < length bytes → (v : ℕ) × (index bytes i ≡ byte v)
unfolding index
index-in_bounds [] i h = absurd (omega arith)
index-in_bounds (x ∷ xs) zero h = (x, refl)
index-in_bounds (x ∷ xs) (suc i) h = index-in_bounds xs i (omega arith)

index-set_self : (bytes : List ℕ) (i v : ℕ) → i < length bytes → index (set bytes i v) i ≡ byte v
unfolding index
index-set_self [] i v h = absurd (omega arith)
index-set_self (x ∷ xs) zero v h = refl
index-set_self (x ∷ xs) (suc i) v h = index-set_self xs i v (omega arith)

rom_offset-lt :
    (self : Cartridge) (addr : ℕ) → IsValid self → rom_offset self addr < length self.rom
unfolding rom_offset
rom_offset-lt self addr w = rw w.masked (masked-lt _ (length self.rom) w.rom_bytes)

byte-not_panicked : (v : ℕ) → byte v ≢ panicked
byte-not_panicked v e = ground (arith, e)

open_bus-not_panicked : open_bus ≢ panicked
open_bus-not_panicked e = ground (arith, e)

index-not_panicked : (bytes : List ℕ) (i : ℕ) → i < length bytes → index bytes i ≢ panicked
index-not_panicked bytes i h e =
    let (v, e') = index-in_bounds bytes i h in byte-not_panicked v (sym e' ∙ e)

sram_offset-lt : (s : List ℕ) (addr : ℕ) → 0 < length s → sram_offset s addr < length s
unfolding sram_offset
sram_offset-lt s addr h = masked-lt addr (length s) h

read_sram-not_panicked : (s : Option (List ℕ)) (addr : ℕ) → HasBytes s → read_sram s addr ≢ panicked
unfolding read_sram sram_offset
read_sram-not_panicked none addr h = open_bus-not_panicked
read_sram-not_panicked (some s) addr h = index-not_panicked s _ (masked-lt addr (length s) h)

read_rom :
    (self : Cartridge) (addr : ℕ)
    → in_rom addr ≡ true
    → read self addr ≡ index self.rom (rom_offset self addr)
unfolding read
read_rom self addr h = if_true (in_rom addr) _ _ h

read_other :
    (self : Cartridge) (addr : ℕ)
    → in_rom addr ≡ false
    → in_sram addr ≡ false
    → read self addr ≡ open_bus
unfolding read
read_other self addr h k = if_false (in_rom addr) _ _ h ∙ if_false (in_sram addr) _ _ k

read_save :
    (self : Cartridge) (addr : ℕ)
    → in_rom addr ≡ false
    → in_sram addr ≡ true
    → read self addr ≡ read_sram self.sram addr
unfolding read
read_save self addr h k = if_false (in_rom addr) _ _ h ∙ if_true (in_sram addr) _ _ k

-- Every read of a valid cartridge, at any address, stays inside the two memories.
pub read-not_panicked : (self : Cartridge) (addr : ℕ) → IsValid self → read self addr ≢ panicked
read-not_panicked self addr w e = elim (Bool-cases (in_rom addr)) [
  | inl h ↦
      index-not_panicked self.rom _ (rom_offset-lt self addr w) (sym (read_rom self addr h) ∙ e)
  | inr h ↦ elim (Bool-cases (in_sram addr)) [
    | inl k ↦ read_sram-not_panicked self.sram addr w.sram_bytes (sym (read_save self addr h k) ∙ e)
    | inr k ↦ open_bus-not_panicked (sym (read_other self addr h k) ∙ e)
  ]
]

save_not_rom : (addr : ℕ) → in_sram addr ≡ true → in_rom addr ≡ false
unfolding in_sram in_rom
save_not_rom addr h = ground (arith, h)

write_save :
    (addr v : ℕ) (self : Cartridge)
    → in_sram addr ≡ true
    → write addr v self
      ≡ ((write_sram self.sram addr v).0, record self { sram = (write_sram self.sram addr v).1 })
unfolding write
write_save addr v self h = if_true (in_sram addr) _ _ h

write_outside :
    (addr v : ℕ) (self : Cartridge) → in_sram addr ≡ false → write addr v self ≡ (false, self)
unfolding write
write_outside addr v self h = if_false (in_sram addr) _ _ h

sram_offset-set : (s : List ℕ) (i v addr : ℕ) → sram_offset (set s i v) addr ≡ sram_offset s addr
unfolding sram_offset
sram_offset-set s i v addr = ap (λ (n : ℕ). bit_and addr (n - 1)) (length-set s i v)

stored_sram :
    (s : Option (List ℕ)) (addr v : ℕ)
    → HasBytes s
    → (write_sram s addr v).0 ≡ true
    → read_sram (write_sram s addr v).1 addr ≡ byte v
unfolding write_sram read_sram
stored_sram none addr v h t = absurd (ground (arith, t))
stored_sram (some s) addr v h t =
    ap (index (set s (sram_offset s addr) v)) (sram_offset-set s (sram_offset s addr) v addr)
    ∙ index-set_self s (sram_offset s addr) v (sram_offset-lt s addr h)

kept_sram : (s : Option (List ℕ)) (addr v : ℕ) → HasBytes s → HasBytes (write_sram s addr v).1
unfolding write_sram
kept_sram none addr v h = tt
kept_sram (some s) addr v h = omega (arith, length-set s (sram_offset s addr) v)

refused_sram :
    (s : Option (List ℕ)) (addr v : ℕ)
    → (write_sram s addr v).0 ≡ false
    → (write_sram s addr v).1 ≡ s
unfolding write_sram
refused_sram none addr v h = refl
refused_sram (some s) addr v h = absurd (ground (arith, h))

read_rom_same :
    (self : Cartridge) (s : Option (List ℕ)) (q : ℕ)
    → in_rom q ≡ true
    → read (record self { sram = s }) q ≡ read self q
unfolding rom_offset
read_rom_same self s q h = read_rom (record self { sram = s }) q h ∙ sym (read_rom self q h)

-- An accepted write, and a refused one.
pub record IsStored (self : Cartridge) (addr v : ℕ) (self' : Cartridge) : Type 0 where
  pub reads_back : read self' addr ≡ byte v
  pub rom_same : (q : ℕ) → in_rom q ≡ true → read self' q ≡ read self q
  pub still_valid : IsValid self'

write_save-IsStored :
    (self : Cartridge) (addr v : ℕ)
    → IsValid self
    → in_sram addr ≡ true
    → (write_sram self.sram addr v).0 ≡ true
    → IsStored self addr v (record self { sram = (write_sram self.sram addr v).1 })
write_save-IsStored self addr v w k t = record {
  reads_back =
      read_save (record self { sram = (write_sram self.sram addr v).1 }) addr (save_not_rom addr k)
        k
      ∙ stored_sram self.sram addr v w.sram_bytes t;
  rom_same = λ q h. read_rom_same self (write_sram self.sram addr v).1 q h;
  still_valid = record {
    rom_bytes = w.rom_bytes;
    masked = w.masked;
    sram_bytes = kept_sram self.sram addr v w.sram_bytes;
  };
}

write-accepted :
    (self : Cartridge) (addr v : ℕ)
    → IsValid self
    → (write addr v self).0 ≡ true
    → IsStored self addr v (write addr v self).1
write-accepted self addr v w t = elim (Bool-cases (in_sram addr)) [
  | inl k ↦
      subst (λ u. IsStored self addr v u.1) (sym (write_save addr v self k))
        (write_save-IsStored self addr v w k (sym (ap (λ u. u.0) (write_save addr v self k)) ∙ t))
  | inr k ↦ absurd (ground (arith, sym (ap (λ u. u.0) (write_outside addr v self k)) ∙ t))
]

write-refused :
    (self : Cartridge) (addr v : ℕ) → (write addr v self).0 ≡ false → (write addr v self).1 ≡ self
write-refused self addr v f = elim (Bool-cases (in_sram addr)) [
  | inl k ↦
      ap (λ u. u.1) (write_save addr v self k)
      ∙ ap (λ s. record self { sram = s })
          (refused_sram self.sram addr v (sym (ap (λ u. u.0) (write_save addr v self k)) ∙ f))
  | inr k ↦ ap (λ u. u.1) (write_outside addr v self k)
]

-- A write to a valid cartridge either reports true, and then the address reads back the value, no
-- ROM address changes and the cartridge stays valid, or reports false and changes nothing.
pub read-write :
    (self : Cartridge) (addr v : ℕ)
    → IsValid self
    → ((write addr v self).0 ≡ true → IsStored self addr v (write addr v self).1)
      × ((write addr v self).0 ≡ false → (write addr v self).1 ≡ self)
read-write self addr v w = (λ t. write-accepted self addr v w t, λ f. write-refused self addr v f)

pub write-IsValid : (addr v : ℕ) (self : Cartridge) → IsValid self → IsValid (write addr v self).1
write-IsValid addr v self w = elim (Bool-cases (write addr v self).0) [
  | inl t ↦ (write-accepted self addr v w t).still_valid
  | inr f ↦ subst IsValid (sym (write-refused self addr v f)) w
]

-- The save RAM byte at an index, where there is one.
unfoldable pub saved : ℕ → Cartridge → Option ℕ
saved i self = elim self.sram [ none ↦ none | some s ↦ get_elem? s i ]

get_elem?-set_ne :
    (bytes : List ℕ) (i j v : ℕ) → i ≢ j → get_elem? (set bytes i v) j ≡ get_elem? bytes j
get_elem?-set_ne [] i j v h = refl
get_elem?-set_ne (x ∷ xs) zero zero v h = absurd (h refl)
get_elem?-set_ne (x ∷ xs) zero (suc j) v h = refl
get_elem?-set_ne (x ∷ xs) (suc i) zero v h = refl
get_elem?-set_ne (x ∷ xs) (suc i) (suc j) v h = get_elem?-set_ne xs i j v (λ e. h (ap suc e))

low_half : (addr : ℕ) → in_sram addr ≡ true → bit 15 addr ≡ 0
unfolding in_sram
low_half addr h = ground (arith, h, bit_and-ones 16 addr)

unreached :
    (s : Option (List ℕ)) (self : Cartridge) (addr v i : ℕ)
    → bit 15 addr ≡ 0
    → bit 15 i ≡ 1
    → saved i (record self { sram = (write_sram s addr v).1 }) ≡ saved i (record self { sram = s })
unfolding saved write_sram sram_offset
unreached none self addr v i h k = refl
unreached (some s) self addr v i h k =
    get_elem?-set_ne s _ i v
      (λ e. omega (arith, h, k, bit-bit_and 15 addr (length s - 1), ap (bit 15) e))

-- No write, at any address, changes a byte of the save RAM whose index has bit 15 set: of a save
-- RAM of 64 KiB or more, half of the bytes are out of reach, since the bank bits are not shifted
-- down over bit 15, which is 0 at every save RAM address.
pub write-upper_half :
    (self : Cartridge) (addr v i : ℕ) → bit 15 i ≡ 1 → saved i (write addr v self).1 ≡ saved i self
write-upper_half self addr v i k = elim (Bool-cases (in_sram addr)) [
  | inl h ↦
      ap (λ u. saved i u.1) (write_save addr v self h)
      ∙ unreached self.sram self addr v i (low_half addr h) k
  | inr h ↦ ap (λ u. saved i u.1) (write_outside addr v self h)
]
