-- ===== src/Bootloader/Disk/Host.antt =====
-- The files as a host finds them on the disk: by the boot sector, the directory and the chains.
use usb_gpib.Base.{
  ℕ, zero, suc, true, false, ◌≡◌, refl, ap, ◌∙◌, ◌+◌, ◌-◌, ◌*◌, ◌/◌, ◌%◌, ◌≤◌, ◌<◌, ◌==◌, ltb, leb,
  arith,
}
use usb_gpib.Bootloader.Fat.{Bytes, fat_block}
use usb_gpib.Bootloader.Fat.Entry.{fat_entry}
use usb_gpib.Bootloader.Fat.Chain.{fat_block-IsTable}
use usb_gpib.Bootloader.Flash.{
  Spm, in_file, file_start, flash_sectors, read_flash_block, block_address,
}
use usb_gpib.Bootloader.Disk.{
  Disk, eeprom_sectors, flash_cluster, eeprom_cluster, read_eeprom_block, read_block,
}
use usb_gpib.Bootloader.Disk.Blocks.{read_block-behind}

module _ (spm : Spm) (d : Disk spm) where
  -- What the host has read of a sector.
  abbrev sector : ℕ → Bytes
  sector n = read_block spm n d

  abbrev word : ℕ → ℕ → ℕ
  word n i = sector n i + 256 * sector n (i + 1)

  -- The first sector of a cluster: behind the reserved sectors, the tables and the root directory.
  abbrev host_sector : ℕ → ℕ
  host_sector cluster =
      word 0 14 + sector 0 16 * word 0 22 + word 0 17 * 32 / word 0 11 + (cluster - 2) * sector 0 13

  -- The cluster that the chain has after so many others.
  abbrev pub host_cluster : ℕ → ℕ → ℕ
  host_cluster zero cluster = cluster
  host_cluster (suc n) cluster = host_cluster n (fat_entry (sector 1) cluster)

  -- Byte `p` of the file with this entry of the directory.
  abbrev pub host_byte : ℕ → ℕ → ℕ
  host_byte entry p =
      let bytes_of_cluster = sector 0 13 * word 0 11 in
      let cluster = host_cluster (p / bytes_of_cluster) (word 3 (entry * 32 + 26)) in
      sector (host_sector cluster + p % bytes_of_cluster / word 0 11) (p % word 0 11)

  geometry : (cluster : ℕ) → host_sector cluster ≡ 4 + (cluster - 2) * 4
  unfolding read_block
  geometry cluster = refl

  entry_cluster :
      (word 3 (2 * 32 + 26) ≡ flash_cluster d.directory)
      × (word 3 (4 * 32 + 26) ≡ eeprom_cluster d.directory)
  unfolding read_block
  entry_cluster = (refl, refl)

  table : sector 1 ≡ fat_block (flash_cluster d.directory) (eeprom_cluster d.directory)
  unfolding read_block
  table = refl

  abbrev flash_start : ℕ
  flash_start = flash_cluster d.directory

  abbrev eeprom_start : ℕ
  eeprom_start = eeprom_cluster d.directory

  module _ (low : 2 ≤ flash_start) (apart : flash_start + 12 ≤ eeprom_start)
      (room : eeprom_start ≤ 168) where
    chain : (n m : ℕ) → m + n ≤ 11 → host_cluster n (flash_start + m) ≡ flash_start + m + n
    chain zero m few = omega arith
    chain (suc n) m few =
        let t = fat_block-IsTable flash_start eeprom_start low apart room in
        let next : fat_entry (sector 1) (flash_start + m) ≡ flash_start + (m + 1) =
          ap (λ b. fat_entry b (flash_start + m)) table
          ∙ t.flash_chain m (omega arith)
          ∙ ground arith in
        ap (host_cluster n) next ∙ chain n (m + 1) (omega arith) ∙ omega arith

    flash_sector :
        (q i : ℕ)
        → q < 48
        → i < 512
        → sector (4 + (flash_start - 2) * 4 + q) i ≡ spm.byte d.chip (q * 512 + i)
    unfolding read_flash_block read_eeprom_block
    flash_sector q i hq hi =
        let n = 4 + (flash_start - 2) * 4 + q in
        let start : file_start flash_start ≡ 4 + (flash_start - 2) * 4 = omega arith in
        let inside : in_file n (file_start flash_start) flash_sectors ≡ true = ground arith in
        let outside : in_file n (file_start eeprom_start) eeprom_sectors ≡ false = ground arith in
        let below : ltb i 512 ≡ true = ground arith in
        let place : (block_address n (file_start flash_start) + i) % 65536 ≡ q * 512 + i =
          omega arith in
        read_block-behind spm n i d (omega arith)
        ∙ rw (outside, inside, below) (ap (spm.byte d.chip) place)

    eeprom_sector :
        (q i : ℕ)
        → q < 2
        → i < 512
        → sector (4 + (eeprom_start - 2) * 4 + q) i ≡ d.eeprom (q * 512 + i)
    unfolding read_block read_eeprom_block
    eeprom_sector q i hq hi =
        let n = 4 + (eeprom_start - 2) * 4 + q in
        let boot : (n == 0) ≡ false = ground arith in
        let small : leb n 2 ≡ false = ground arith in
        let root : (n == 3) ≡ false = ground arith in
        let inside : in_file n (file_start eeprom_start) eeprom_sectors ≡ true = ground arith in
        let below : ltb i 512 ≡ true = ground arith in
        let place : (block_address n (file_start eeprom_start) + i) % 65536 ≡ q * 512 + i =
          omega arith in
        rw (boot, small, root, inside, below) (ap d.eeprom place)

    -- What a host reads of a file, in numbers.
    read_at : ℕ → ℕ → ℕ
    read_at cluster p = sector (4 + (cluster - 2) * 4 + p % 2048 / 512) (p % 512)

    host_byte-at :
        (p : ℕ)
        → (host_byte 2 p ≡ read_at (host_cluster (p / 2048) flash_start) p)
          × (host_byte 4 p ≡ read_at (host_cluster (p / 2048) eeprom_start) p)
    unfolding read_block read_at
    host_byte-at p = (refl, refl)

    -- Where the directory has FLASH.BIN at cluster 2 or later and EEPROM.BIN behind it, within the table:
    -- a host that finds its way by the boot sector, the directory and the chains of clusters reads, as
    -- byte `p` of the one, the byte at address `p` of the FLASH, for all of its 24576, and as byte `q` of
    -- the other, the byte at address `q` of the EEPROM, for all of its 1023.
    pub host_byte-files :
        (p q : ℕ)
        → p < 24576
        → q < 1023
        → (host_byte 2 p ≡ spm.byte d.chip p) × (host_byte 4 q ≡ d.eeprom q)
    unfolding read_at
    host_byte-files p q hp hq =
        let zero_off : flash_start ≡ flash_start + 0 = omega arith in
        let cluster : host_cluster (p / 2048) flash_start ≡ flash_start + p / 2048 =
          ap (host_cluster (p / 2048)) zero_off ∙ chain (p / 2048) 0 (omega arith) ∙ omega arith in
        let first : q / 2048 ≡ 0 = omega arith in
        let at_flash : 4 + (flash_start + p / 2048 - 2) * 4 + p % 2048 / 512
            ≡ 4 + (flash_start - 2) * 4 + p / 512 =
          omega arith in
        let at_eeprom : q % 2048 / 512 ≡ q / 512 = omega arith in
        let flash_address : p / 512 * 512 + p % 512 ≡ p = omega arith in
        let eeprom_address : q / 512 * 512 + q % 512 ≡ q = omega arith in
        (
          (host_byte-at p).0
              ∙ ap (λ c. read_at c p) cluster
              ∙ ap (λ n. sector n (p % 512)) at_flash
              ∙ flash_sector (p / 512) (p % 512) (omega arith) (omega arith)
              ∙ ap (spm.byte d.chip) flash_address,
          (host_byte-at q).1
              ∙ ap (λ n. read_at (host_cluster n eeprom_start) q) first
              ∙ ap (λ n. sector (4 + (eeprom_start - 2) * 4 + n) (q % 512)) at_eeprom
              ∙ eeprom_sector (q / 512) (q % 512) (omega arith) (omega arith)
              ∙ ap d.eeprom eeprom_address,
        )
