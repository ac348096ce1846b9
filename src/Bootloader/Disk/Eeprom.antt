-- ===== src/Bootloader/Disk/Eeprom.antt =====
-- A block of EEPROM.BIN: what is written to it is read again.
use usb_gpib.Base.{
  ℕ, zero, suc, Bool, true, false, ◌≡◌, ◌∙◌, ap, ◌+◌, ◌-◌, ◌%◌, ◌≤◌, ◌&&◌, ◌==◌, ltb, leb,
  if◌then◌else◌, Bool-cases, inl, inr, arith,
}
use usb_gpib.Bootloader.Fat.{Bytes, store}
use usb_gpib.Bootloader.Flash.{in_file, file_start, block_address}
use usb_gpib.Bootloader.Disk.{
  eeprom_sectors, write_eeprom_bytes, write_eeprom_block, read_eeprom_block,
}

-- The place at `address`, then the next ones: together one row of places.
pub row_step :
    (i address other n : ℕ) (f : ℕ → ℕ) (x : ℕ)
    → (if leb (address + 1) other && ltb other (address + 1 + n)
        then f (i + 1 + (other - (address + 1)))
        else if other == address
        then f i
        else x)
      ≡ (if leb address other && ltb other (address + suc n) then f (i + (other - address)) else x)
row_step i address other n f x = elim (Bool-cases (leb (address + 1) other)) [
  | inl later ↦
      let place : i + 1 + (other - (address + 1)) ≡ i + (other - address) = ground arith in
      rw place (ground arith)
  | inr early ↦ elim (Bool-cases (other == address)) [
    | inl here ↦ let place : i + (other - address) ≡ i = ground arith in rw place (ground arith)
    | inr before ↦ ground arith
  ]
]

bytes_written :
    (n i addr a : ℕ) (buffer rom : Bytes)
    → addr + n ≤ 65535
    → write_eeprom_bytes n i addr buffer rom a
      ≡ (if leb addr a && ltb a (addr + n) then buffer (i + (a - addr)) else rom a)
unfolding write_eeprom_bytes
bytes_written zero i addr a buffer rom room = ground arith
bytes_written (suc n) i addr a buffer rom room =
    let next : (addr + 1) % 65536 ≡ addr + 1 = omega arith in
    let rom' = store addr (buffer i) rom in
    ap (λ k. write_eeprom_bytes n (i + 1) k buffer rom' a) next
    ∙ bytes_written n (i + 1) (addr + 1) a buffer rom' (omega arith)
    ∙ row_step i addr a n buffer (rom a)

-- The block that is read matters only where it is not of the file.
pub read_eeprom-beside :
    (cluster block i : ℕ) (rom old old' : Bytes)
    → old i ≡ old' i
    → read_eeprom_block cluster block rom old i ≡ read_eeprom_block cluster block rom old' i
unfolding read_eeprom_block
read_eeprom-beside cluster block i rom old old' same =
    ap
      (λ x.
        if in_file block (file_start cluster) eeprom_sectors && ltb i 512
        then rom ((block_address block (file_start cluster) + i) % 65536)
        else x)
      same

module _ (cluster block : ℕ) (buffer rom : Bytes) where
  abbrev start : ℕ
  start = file_start cluster

  read_is :
      (other i : ℕ) (old rom' : Bytes) (b : Bool)
      → (in_file other start eeprom_sectors && ltb i 512) ≡ b
      → read_eeprom_block cluster other rom' old i
        ≡ (if b then rom' ((block_address other start + i) % 65536) else old i)
  unfolding read_eeprom_block
  read_is other i old rom' b k = rw k

  write_is :
      (b : Bool)
      → in_file block start eeprom_sectors ≡ b
      → write_eeprom_block cluster block buffer rom
        ≡ (if b then write_eeprom_bytes 512 0 (block_address block start) buffer rom else rom)
  unfolding write_eeprom_block
  write_is b h = rw h

  -- Reading a block of the disk after a block was written to the EEPROM.
  pub read-write_eeprom_block :
      (other i : ℕ) (old : Bytes)
      → read_eeprom_block cluster other (write_eeprom_block cluster block buffer rom) old i ≡ (
          if other == block && in_file block start eeprom_sectors && ltb i 512
          then buffer i
          else read_eeprom_block cluster other rom old i)
  read-write_eeprom_block other i old = elim (Bool-cases (in_file block start eeprom_sectors)) [
    | inl h ↦ elim (Bool-cases (in_file other start eeprom_sectors && ltb i 512)) [
      | inl k ↦
          let at = (block_address other start + i) % 65536 in
          ap (λ r. read_eeprom_block cluster other r old i) (write_is true h)
          ∙ read_is other i old _ true k
          ∙ bytes_written 512 0 (block_address block start) at buffer rom (ground arith)
          ∙ here_or_not other i old h k
      | inr k ↦ read_is other i old _ false k ∙ ground (arith, read_is other i old rom false k)
    ]
    | inr h ↦ ap (λ r. read_eeprom_block cluster other r old i) (write_is false h) ∙ ground arith
  ]
    where
      here_or_not :
          (other i : ℕ) (old : Bytes)
          → in_file block start eeprom_sectors ≡ true
          → (in_file other start eeprom_sectors && ltb i 512) ≡ true
          → (if leb (block_address block start) ((block_address other start + i) % 65536)
                && ltb ((block_address other start + i) % 65536) (block_address block start + 512)
              then buffer
                  (0 + ((block_address other start + i) % 65536 - block_address block start))
              else rom ((block_address other start + i) % 65536))
            ≡ (if other == block && in_file block start eeprom_sectors && ltb i 512
                then buffer i
                else read_eeprom_block cluster other rom old i)
      here_or_not other i old h k = elim (Bool-cases (other == block)) [
        | inl same ↦
            let place : 0 + ((block_address other start + i) % 65536 - block_address block start)
                ≡ i =
              ground arith in
            rw place (ground arith)
        | inr differ ↦ ground (arith, read_is other i old rom true k)
      ]
