-- ===== src/Bootloader/Flash.antt =====
-- BootloaderAPI.c, and the FLASH blocks of VirtualFAT.c: `ReadWriteFLASHFileBlock`.
pub mod Page
pub mod Block
use usb_gpib.Base.{
  ℕ, zero, suc, Bool, ◌≡◌, ◌+◌, ◌-◌, ◌*◌, ◌/◌, ◌%◌, ◌<◌, ◌&&◌, ◌||◌, ◌==◌, not, ltb, leb, bit_or,
  if◌then◌else◌,
}
use usb_gpib.Bootloader.Fat.{Bytes}

-- SPM_PAGESIZE, BOOT_START_ADDR and SECTOR_SIZE_BYTES
abbrev pub page_size : ℕ
page_size = 128

abbrev pub boot_start : ℕ
boot_start = 0x7000

abbrev pub sector_size : ℕ
sector_size = 512

-- The self-programming of the chip, as `boot_page_erase_safe`, `boot_page_fill_safe` and
-- `boot_page_write_safe` with `boot_rww_enable` behave by its data sheet: an erased page reads 0xFF;
-- words go into a buffer of one page, each place once after the buffer was cleared; and writing an
-- erased page copies the buffer. Erasing and writing clear the buffer.
pub record Spm : Type 1 where
  pub Chip : Type 0
  pub byte : Chip → Bytes  -- pgm_read_byte
  pub held : Chip → Bytes  -- the page buffer
  pub erase : ℕ → Chip → Chip
  pub fill : ℕ → ℕ → Chip → Chip
  pub write : ℕ → Chip → Chip
  pub byte-erase :
      (p a : ℕ) (c : Chip) → byte (erase p c) a ≡ (if a / 128 == p / 128 then 0xff else byte c a)
  pub held-erase : (p o : ℕ) (c : Chip) → held (erase p c) o ≡ 0xff
  pub byte-fill : (p v a : ℕ) (c : Chip) → byte (fill p v c) a ≡ byte c a
  pub held-fill :
      (p v o : ℕ) (c : Chip)
      → held c (p % 128) ≡ 0xff
      → held c (p % 128 + 1) ≡ 0xff
      → held (fill p v c) o
        ≡ (if o == p % 128 then v % 256 else if o == p % 128 + 1 then v / 256 else held c o)
  pub byte-write_page :
      (p a : ℕ) (c : Chip)
      → a / 128 ≡ p / 128
      → byte c a ≡ 0xff
      → byte (write p c) a ≡ held c (a % 128)
  pub byte-write_other :
      (p a : ℕ) (c : Chip) → ¬ (a / 128 ≡ p / 128) → byte (write p c) a ≡ byte c a

-- `IsPageAddressValid`
abbrev pub is_page_address_valid : ℕ → Bool
is_page_address_valid a = ltb a boot_start && a % page_size == 0

-- DISK_BLOCK_DataStartBlock + (start cluster - 2) * SECTOR_PER_CLUSTER, as a uint16_t
abbrev pub file_start : ℕ → ℕ
file_start cluster = (4 + (cluster + 65536 - 2) * 4) % 65536

-- FILE_SECTORS of FLASH.BIN
abbrev pub flash_sectors : ℕ
flash_sectors = 48

abbrev pub in_file : ℕ → ℕ → ℕ → Bool
in_file block start sectors = leb start block && leb block ((start + (sectors - 1)) % 65536)

-- `(uint16_t)(BlockNumber - FileStartBlock) * SECTOR_SIZE_BYTES`
abbrev pub block_address : ℕ → ℕ → ℕ
block_address block start = (block - start) * sector_size % 65536

module _ (spm : Spm) where
  open spm use {Chip, byte, erase, fill, write}

  -- `BootloaderAPI_ErasePage`, `BootloaderAPI_WritePage` and `BootloaderAPI_FillWord`
  abbrev pub erase_page : ℕ → Chip → Chip
  erase_page a c = if is_page_address_valid a then erase a c else c

  abbrev pub write_page : ℕ → Chip → Chip
  write_page a c = if is_page_address_valid a then write a c else c

  abbrev pub fill_word : ℕ → ℕ → Chip → Chip
  fill_word = fill

  -- One word of the loop: the page is erased before its first word, and written after its last one.
  unfoldable pub write_word : ℕ → ℕ → ℕ → Chip → Chip
  write_word addr low high c =
      let c1 = if addr % page_size == 0 then erase_page addr c else c in
      let c2 = fill_word addr (bit_or (high * 256) low) c1 in
      let addr' = (addr + 2) % 65536 in
      if addr' % page_size == 0 then write_page ((addr' + 65536 - page_size) % 65536) c2 else c2

  -- The loop, for so many words from byte `i` of the buffer on.
  unfoldable pub write_words : ℕ → ℕ → ℕ → Bytes → Chip → Chip
  unfolding write_word
  write_words zero i addr buffer c = c
  write_words (suc n) i addr buffer c =
      write_words n (i + 2) ((addr + 2) % 65536) buffer
        (write_word addr (buffer i) (buffer (i + 1)) c)

  -- `ReadWriteFLASHFileBlock(BlockNumber, BlockBuffer, false)`
  unfoldable pub write_flash_block : ℕ → ℕ → Bytes → Chip → Chip
  unfolding write_words
  write_flash_block cluster block buffer c =
      if in_file block (file_start cluster) flash_sectors
      then write_words 256 0 (block_address block (file_start cluster)) buffer c
      else c

  -- `ReadWriteFLASHFileBlock(BlockNumber, BlockBuffer, true)`
  unfoldable pub read_flash_block : ℕ → ℕ → Chip → Bytes → Bytes
  read_flash_block cluster block c buffer i =
      if in_file block (file_start cluster) flash_sectors && ltb i sector_size
      then byte c ((block_address block (file_start cluster) + i) % 65536)
      else buffer i
