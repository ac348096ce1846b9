-- ===== src/Bootloader/Fat/Entry.antt =====
-- One entry of the table, as a host reads it.
use usb_gpib.Base.{
  ℕ, Bool, true, false, ◌≡◌, refl, ◌∙◌, ap, ◌+◌, ◌*◌, ◌/◌, ◌%◌, ◌≤◌, ◌<◌, ◌&&◌, ◌==◌, bit_or,
  if◌then◌else◌, passes_below, passes_below_sound, ==_iff, Bool-cases, inl, inr, arith,
}
use usb_gpib.Bootloader.Fat.{Bytes, store, fat_offset, update_odd, update_even, update_entry}

-- The FAT12 entry with this number: twelve bits, from a byte or from an upper nibble on.
abbrev pub fat_entry : Bytes → ℕ → ℕ
fat_entry t j =
    let off = j + j / 2 in
    if j % 2 == 1 then t off / 16 + 16 * t (off + 1) else t off + 256 * (t (off + 1) % 16)

abbrev or_low : ℕ → Bool
or_low a = passes_below 16 (λ b. bit_or a (b * 16) == a + b * 16)

or_low_table : passes_below 16 or_low ≡ true
unfolding passes_below
or_low_table = refl

pub bit_or-low : (a b : ℕ) → a < 16 → b < 16 → bit_or a (b * 16) ≡ a + b * 16
bit_or-low a b ha hb = (==_iff _ _).0 (
    passes_below_sound 16 (λ c. bit_or a (c * 16) == a + c * 16) b
      (passes_below_sound 16 or_low a or_low_table ha) hb)

abbrev or_high : ℕ → Bool
or_high a = passes_below 16 (λ b. bit_or (a * 16) b == a * 16 + b)

or_high_table : passes_below 16 or_high ≡ true
unfolding passes_below
or_high_table = refl

bit_or-high : (a b : ℕ) → a < 16 → b < 16 → bit_or (a * 16) b ≡ a * 16 + b
bit_or-high a b ha hb = (==_iff _ _).0 (
    passes_below_sound 16 (λ c. bit_or (a * 16) c == a * 16 + c) b
      (passes_below_sound 16 or_high a or_high_table ha) hb)

-- Two entries, at places that do not wrap around.
module _ (i j next : ℕ) (t : Bytes) (hi : i ≤ 169) (hj : j ≤ 169) (small : next < 4096) where
  entry-odd :
      i % 2 ≡ 1
      → fat_entry (update_odd (fat_offset i) next t) j ≡ (if j == i then next else fat_entry t j)
  entry-odd odd = ground (arith, bit_or-low (t (fat_offset i) % 16) (next % 16))

  -- The next entry gets four bits of this one.
  entry-even :
      i % 2 ≡ 0
      → ((k : ℕ) → t k < 256)
      → fat_entry (update_even (fat_offset i) next t) j ≡ (
          if j == i
          then next
          else if j == i + 1
          then fat_entry t j / 16 * 16 + next / 16 % 16
          else fat_entry t j)
  entry-even even bytes = ground (
    arith,
    bytes (j + j / 2),
    bit_or-high (store (fat_offset i) (next % 256) t (fat_offset i) / 16 % 16) (next / 256 % 256),
  )

  chosen :
      (b : Bool)
      → (i % 2 == 1) ≡ b
      → update_entry i next t
        ≡ (if b then update_odd (fat_offset i) next t else update_even (fat_offset i) next t)
  unfolding update_entry
  chosen b e =
      ap (λ b. if b then update_odd (fat_offset i) next t else update_even (fat_offset i) next t) e

  -- The lookup after an update: an entry has the value that was written to it; writing to an even entry
  -- puts four of its bits in place of the lower four of the next one; every other entry is unchanged.
  pub entry-update :
      ((k : ℕ) → t k < 256)
      → fat_entry (update_entry i next t) j ≡ (
          if j == i
          then next
          else if i % 2 == 0 && j == i + 1
          then fat_entry t j / 16 * 16 + next / 16 % 16
          else fat_entry t j)
  entry-update bytes = elim (Bool-cases (i % 2 == 1)) [
    | inl odd ↦ ap (λ u. fat_entry u j) (chosen true odd) ∙ entry-odd (ground arith) ∙ ground arith
    | inr even ↦
        ap (λ u. fat_entry u j) (chosen false even) ∙ entry-even (ground arith) bytes ∙ ground arith
  ]
