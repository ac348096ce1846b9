-- ===== src/Bootloader/Fat/Chain.antt =====
-- The chains of the two files, as a host reads them.
use usb_gpib.Base.{
  ℕ, zero, suc, ◌≡◌, refl, ◌∙◌, ap, ◌+◌, ◌-◌, ◌*◌, ◌/◌, ◌%◌, ◌≤◌, ◌<◌, ◌&&◌, ◌==◌, if◌then◌else◌,
  ==_iff, Bool-cases, inl, inr, arith,
}
use usb_gpib.Bootloader.Fat.{Bytes, fat_offset, update_entry, chain_rounds, update_chain, fat_block}
use usb_gpib.Base.{◌⊎◌}
use usb_gpib.Bootloader.Fat.Entry.{fat_entry, entry-update, bit_or-low}

abbrev AreBytes : Bytes → Type 0
AreBytes t = (k : ℕ) → t k < 256

update-AreBytes : (index next : ℕ) (t : Bytes) → AreBytes t → AreBytes (update_entry index next t)
unfolding update_entry
update-AreBytes index next t bytes k =
    ground (arith, bytes k, bit_or-low (t (fat_offset index) % 16) (next % 16))

-- What a round writes.
abbrev pub next_of : ℕ → ℕ → ℕ → ℕ
next_of index length k = if k == length - 1 then 0xfff else index + k + 1

module _ (index length : ℕ) where
  abbrev round : ℕ → Bytes → Bytes
  round i t =
      update_entry ((index + i) % 65536)
        (if i == length - 1 then 0xfff else ((index + i) % 65536 + 1) % 65536) t

  round-AreBytes : (i : ℕ) (t : Bytes) → AreBytes t → AreBytes (round i t)
  round-AreBytes i t bytes = update-AreBytes _ _ t bytes

  round-entry :
      (i j : ℕ) (t : Bytes)
      → AreBytes t
      → index + i ≤ 168
      → j ≤ 169
      → fat_entry (round i t) j ≡ (
          if j == index + i
          then next_of index length i
          else if (index + i) % 2 == 0 && j == index + i + 1
          then fat_entry t j / 16 * 16 + next_of index length i / 16 % 16
          else fat_entry t j)
  round-entry i j t bytes hi hj =
      let wide : (index + i) % 65536 ≡ index + i = omega arith in
      let value : (if i == length - 1 then 0xfff else (index + i + 1) % 65536)
          ≡ next_of index length i =
        ground arith in
      rw (wide, value)
        (entry-update (index + i) j (next_of index length i) t (omega arith) hj (ground arith)
          bytes)

  rounds-AreBytes : (n i : ℕ) (t : Bytes) → AreBytes t → AreBytes (chain_rounds n i index length t)
  unfolding chain_rounds
  rounds-AreBytes zero i t bytes = bytes
  rounds-AreBytes (suc n) i t bytes =
      rounds-AreBytes n (i + 1) (round i t) (round-AreBytes i t bytes)

  -- The entries below the rounds stay, and those from the second one after them on.
  rounds-other :
      (n i j : ℕ) (t : Bytes)
      → AreBytes t
      → index + i + n ≤ 169
      → j ≤ 169
      → ((j < index + i) ⊎ (index + i + n < j))
      → fat_entry (chain_rounds n i index length t) j ≡ fat_entry t j
  unfolding chain_rounds
  rounds-other zero i j t bytes room hj away = refl
  rounds-other (suc n) i j t bytes room hj away =
      rounds-other n (i + 1) j (round i t) (round-AreBytes i t bytes) (omega arith) hj
        (farther away)
      ∙ round-entry i j t bytes (omega arith) hj
      ∙ ground arith
    where
      farther :
          ((j < index + i) ⊎ (index + i + suc n < j))
          → (j < index + (i + 1)) ⊎ (index + (i + 1) + n < j)
      farther (inl a) = inl (omega arith)
      farther (inr a) = inr (omega arith)

  rounds-within :
      (n i k : ℕ) (t : Bytes)
      → AreBytes t
      → index + i + n ≤ 169
      → i ≤ k
      → k < i + n
      → fat_entry (chain_rounds n i index length t) (index + k) ≡ next_of index length k
  unfolding chain_rounds
  rounds-within zero i k t bytes room lo hi = absurd (omega arith)
  rounds-within (suc n) i k t bytes room lo hi = elim (Bool-cases (k == i)) [
    | inl here ↦
        let same : k ≡ i = (==_iff k i).0 here in
        rounds-other n (i + 1) (index + k) (round i t) (round-AreBytes i t bytes) (omega arith)
          (omega arith) (inl (omega arith))
        ∙ round-entry i (index + k) t bytes (omega arith) (omega arith)
        ∙ ground arith
    | inr later ↦
        rounds-within n (i + 1) k (round i t) (round-AreBytes i t bytes) (omega arith)
          (ground arith) (omega arith)
  ]

-- The table of a disk whose files start at these clusters. The spilled entry is that of a free cluster,
-- which should be 0.
pub record IsTable (flash_start eeprom_start : ℕ) (t : Bytes) : Type 0 where
  pub media : fat_entry t 0 ≡ 0xff8
  pub reserved : fat_entry t 1 ≡ 0xfff
  pub flash_chain : (k : ℕ) → k < 12 → fat_entry t (flash_start + k) ≡ next_of flash_start 12 k
  pub eeprom_chain : fat_entry t eeprom_start ≡ 0xfff
  pub spilled : fat_entry t (eeprom_start + 1) ≡ (if eeprom_start % 2 == 0 then 15 else 0)

module _ (f g : ℕ) (low : 2 ≤ f) (apart : f + 12 ≤ g) (room : g ≤ 168) where
  abbrev reserved_entries : Bytes
  reserved_entries = update_entry 1 0xfff (update_entry 0 0xff8 (λ a. 0))

  abbrev flash_entries : Bytes
  flash_entries = update_chain f 12 reserved_entries

  reserved-AreBytes : AreBytes reserved_entries
  reserved-AreBytes = update-AreBytes 1 0xfff _ (update-AreBytes 0 0xff8 (λ a. 0) λ k. omega arith)

  reserved_read :
      (j : ℕ)
      → j ≤ 169
      → fat_entry reserved_entries j ≡ (if j == 0 then 0xff8 else if j == 1 then 0xfff else 0)
  reserved_read j hj =
      entry-update 1 j 0xfff (update_entry 0 0xff8 (λ a. 0)) (omega arith) hj (omega arith)
        (update-AreBytes 0 0xff8 (λ a. 0) λ k. omega arith)
      ∙ ground
          (arith, entry-update 0 j 0xff8 (λ a. 0) (omega arith) hj (omega arith) (λ k. omega arith))

  flash-AreBytes : AreBytes flash_entries
  unfolding update_chain
  flash-AreBytes = rounds-AreBytes f 12 12 0 reserved_entries reserved-AreBytes

  -- Entries that neither chain touches, and those of the FLASH chain.
  outside :
      (j : ℕ)
      → j ≤ 169
      → (j < f) ⊎ (g + 1 < j)
      → fat_entry (fat_block f g) j ≡ fat_entry reserved_entries j
  unfolding fat_block update_chain
  outside j hj away =
      rounds-other g 1 1 0 j flash_entries flash-AreBytes (omega arith) hj (beyond away)
      ∙ rounds-other f 12 12 0 j reserved_entries reserved-AreBytes (omega arith) hj (beside away)
    where
      beyond : (j < f) ⊎ (g + 1 < j) → (j < g + 0) ⊎ (g + 0 + 1 < j)
      beyond (inl a) = inl (omega arith)
      beyond (inr a) = inr (omega arith)

      beside : (j < f) ⊎ (g + 1 < j) → (j < f + 0) ⊎ (f + 0 + 12 < j)
      beside (inl a) = inl (omega arith)
      beside (inr a) = inr (omega arith)

  free : fat_entry flash_entries (g + 1) ≡ 0
  unfolding update_chain
  free =
      rounds-other f 12 12 0 (g + 1) reserved_entries reserved-AreBytes (omega arith) (omega arith)
        (inr (omega arith))
      ∙ reserved_read (g + 1) (omega arith)
      ∙ ground arith

  -- Where FLASH.BIN starts at cluster 2 or later, EEPROM.BIN behind it, and both within the table: a
  -- host reads the two reserved entries, the chain of the twelve clusters of FLASH.BIN in order with its
  -- end mark, and the one cluster of EEPROM.BIN; but where that has an even number, the next entry, of a
  -- cluster that no file has, reads 15 in place of 0.
  pub fat_block-IsTable : IsTable f g (fat_block f g)
  unfolding fat_block update_chain
  fat_block-IsTable = record {
    media = outside 0 (omega arith) (inl (omega arith)) ∙ reserved_read 0 (omega arith);
    reserved = outside 1 (omega arith) (inl (omega arith)) ∙ reserved_read 1 (omega arith);
    flash_chain = λ k hk.
        rounds-other g 1 1 0 (f + k) flash_entries flash-AreBytes (omega arith) (omega arith)
          (inl (omega arith))
        ∙ rounds-within f 12 12 0 k reserved_entries reserved-AreBytes (omega arith) (omega arith)
            (omega arith);
    eeprom_chain =
        ap (fat_entry (fat_block f g)) (omega arith)
        ∙ rounds-within g 1 1 0 0 flash_entries flash-AreBytes (omega arith) (omega arith)
            (omega arith);
    spilled =
        round-entry g 1 0 (g + 1) flash_entries flash-AreBytes (omega arith) (omega arith)
        ∙ ground (arith, free);
  }
