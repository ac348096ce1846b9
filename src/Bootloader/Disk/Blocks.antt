-- ===== src/Bootloader/Disk/Blocks.antt =====
-- The blocks of the two files on the disk: what is read after one of them was written.
use usb_gpib.Base.{
  ℕ, Bool, true, false, ◌≡◌, refl, ap, ◌∙◌, ◌≤◌, ◌<◌, ◌+◌, ◌&&◌, ◌||◌, ◌==◌, ltb, leb,
  if◌then◌else◌, ==_iff, Bool-cases, inl, inr, arith,
}
use usb_gpib.Bootloader.Fat.{Bytes}
use usb_gpib.Bootloader.Flash.{
  Spm, in_file, file_start, flash_sectors, write_flash_block, read_flash_block,
}
use usb_gpib.Bootloader.Flash.Block.{read-write_flash_block}
use usb_gpib.Bootloader.Disk.{
  Disk, eeprom_sectors, flash_cluster, eeprom_cluster, read_eeprom_block, write_eeprom_block,
  write_block, read_block,
}
use usb_gpib.Bootloader.Disk.Eeprom.{read-write_eeprom_block, read_eeprom-beside}

abbrev of_flash : Bytes → ℕ → Bool
of_flash directory block = in_file block (file_start (flash_cluster directory)) flash_sectors

abbrev of_eeprom : Bytes → ℕ → Bool
of_eeprom directory block = in_file block (file_start (eeprom_cluster directory)) eeprom_sectors

-- A block of one of the two files, or of both, where the directory says so.
pub record IsFile (directory : Bytes) (block : ℕ) : Type 0 where
  pub behind : 4 ≤ block
  pub within : (of_flash directory block || of_eeprom directory block) ≡ true

-- So many blocks from this one on are.
abbrev pub AreFile : Bytes → ℕ → ℕ → Type 0
AreFile directory address n = (k : ℕ) → address ≤ k → k < address + n → IsFile directory k

module _ (spm : Spm) where
  -- What `VirtualFAT_WriteBlock` makes of a block behind the directory.
  abbrev programmed : ℕ → Bytes → Disk spm → Disk spm
  programmed block buffer d = record d {
    chip = write_flash_block spm (flash_cluster d.directory) block buffer d.chip;
    eeprom = write_eeprom_block (eeprom_cluster d.directory) block buffer d.eeprom;
  }

  write_block-behind :
      (block : ℕ) (buffer : Bytes) (d : Disk spm)
      → 4 ≤ block
      → write_block spm block buffer d ≡ programmed block buffer d
  unfolding write_block
  write_block-behind block buffer d behind =
      let low : leb block 2 ≡ false = ground arith in
      let root : (block == 3) ≡ false = ground arith in rw (low, root) refl

  pub read_block-behind :
      (block i : ℕ) (d : Disk spm)
      → 4 ≤ block
      → read_block spm block d i
        ≡ read_eeprom_block
            (eeprom_cluster d.directory)
            block
            d.eeprom
            (read_flash_block spm (flash_cluster d.directory) block d.chip (λ j. 0))
            i
  unfolding read_block
  read_block-behind block i d behind =
      let boot : (block == 0) ≡ false = ground arith in
      let low : leb block 2 ≡ false = ground arith in
      let root : (block == 3) ≡ false = ground arith in rw (boot, low, root) refl

  pub write_block-directory :
      (block : ℕ) (buffer : Bytes) (d : Disk spm)
      → 4 ≤ block
      → (write_block spm block buffer d).directory ≡ d.directory
  write_block-directory block buffer d behind =
      ap (λ e. e.directory) (write_block-behind block buffer d behind)

  module _ (block i : ℕ) (buffer : Bytes) (d : Disk spm) (bytes : (k : ℕ) → buffer k < 256) where
    abbrev flash_before : ℕ → Bytes
    flash_before other = read_flash_block spm (flash_cluster d.directory) other d.chip (λ j. 0)

    abbrev flash_after : ℕ → Bytes
    flash_after other =
        read_flash_block spm (flash_cluster d.directory) other
          (write_flash_block spm (flash_cluster d.directory) block buffer d.chip) (λ j. 0)

    after_is :
        (other : ℕ)
        → flash_after other i ≡ (
            if other == block && of_flash d.directory block && ltb i 512
            then buffer i
            else flash_before other i)
    after_is other =
        read-write_flash_block spm buffer bytes (flash_cluster d.directory) block d.chip other i
          (λ j. 0)

    -- Where the block is not of the EEPROM.
    through :
        (other : ℕ)
        → of_eeprom d.directory other ≡ false
        → read_eeprom_block (eeprom_cluster d.directory) other d.eeprom (flash_after other) i
          ≡ flash_after other i
    unfolding read_eeprom_block
    through other out = rw out refl

    combined :
        (other : ℕ)
        → IsFile d.directory block
        → i < 512
        → (if other == block && of_eeprom d.directory block && ltb i 512
            then buffer i
            else read_eeprom_block
                (eeprom_cluster d.directory)
                other
                d.eeprom
                (flash_after other)
                i)
          ≡ (if other == block
              then buffer i
              else read_eeprom_block
                  (eeprom_cluster d.directory)
                  other
                  d.eeprom
                  (flash_before other)
                  i)
    combined other h hi = elim (Bool-cases (other == block)) [
      | inl same ↦ elim (Bool-cases (of_eeprom d.directory block)) [
        | inl rom ↦ ground (arith, same, rom)
        | inr flash ↦
            let at : other ≡ block = (==_iff other block).0 same in
            let out : of_eeprom d.directory other ≡ false = ap (of_eeprom d.directory) at ∙ flash in
            rw (same, flash) (through other out ∙ after_is other ∙ ground (arith, h.within))
      ]
      | inr differ ↦
          let kept : flash_after other i ≡ flash_before other i =
            after_is other ∙ ground (arith, differ) in
          rw differ (
            read_eeprom-beside (eeprom_cluster d.directory) other i d.eeprom (flash_after other)
              (flash_before other) kept)
    ]

    -- Reading a block of the files after another one, or the same, was written.
    pub read-write_block :
        (other : ℕ)
        → IsFile d.directory block
        → IsFile d.directory other
        → i < 512
        → read_block spm other (write_block spm block buffer d) i
          ≡ (if other == block then buffer i else read_block spm other d i)
    read-write_block other h k hi =
        ap (λ e. read_block spm other e i) (write_block-behind block buffer d h.behind)
        ∙ read_block-behind other i (programmed block buffer d) k.behind
        ∙ read-write_eeprom_block (eeprom_cluster d.directory) block buffer d.eeprom other i
            (flash_after other)
        ∙ combined other h hi
        ∙ ground (arith, read_block-behind other i d k.behind)
