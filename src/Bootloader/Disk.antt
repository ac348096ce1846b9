-- ===== src/Bootloader/Disk.antt =====
-- The virtual disk of VirtualFAT.c: its blocks, and `VirtualFAT_ReadBlock` and `VirtualFAT_WriteBlock`.
pub mod Eeprom
pub mod Blocks
pub mod Directory
pub mod Host
use usb_gpib.Base.{
  ℕ, zero, suc, Bool, List, [], ◌∷◌, ◌++◌, ◌+◌, ◌-◌, ◌*◌, ◌/◌, ◌%◌, ◌<◌, ◌&&◌, ◌||◌, ◌==◌, ltb, leb,
  get_or, codes, if◌then◌else◌,
}
use usb_gpib.Bootloader.Fat.{Bytes, store, fat_block}
use usb_gpib.Bootloader.Flash.{
  Spm, sector_size, file_start, flash_sectors, in_file, block_address, write_flash_block,
  read_flash_block,
}

-- LUN_MEDIA_BLOCKS: 48 sectors of FLASH, 2 of EEPROM, and 32.
abbrev pub media_blocks : ℕ
media_blocks = 82

abbrev pub little_endian : ℕ → List ℕ
little_endian n = n % 256 ∷ n / 256 % 256 ∷ []

-- `BootBlock`
abbrev pub boot_block : List ℕ
boot_block =
    (0xeb ∷ 0x3c ∷ 0x90 ∷ [])
    ++ (codes "mkdosfs"
        ++ (0 ∷ little_endian sector_size
            ++ (4 ∷ little_endian 1
                ++ (2 ∷ little_endian 16
                    ++ (little_endian media_blocks
                        ++ (0xf8 ∷ little_endian 1
                            ++ (little_endian (media_blocks % 64)
                                ++ (little_endian (media_blocks / 64)
                                    ++ (0
                                          ∷ 0
                                          ∷ 0
                                          ∷ 0
                                          ∷ 0
                                          ∷ 0
                                          ∷ 0
                                          ∷ 0
                                          ∷ 0
                                          ∷ 0
                                          ∷ 0x29
                                          ∷ 0x78
                                          ∷ 0x56
                                          ∷ 0x34
                                          ∷ 0x12
                                          ∷ codes "GPIBUSBBOOT"
                                        ++ codes "FAT12   ")))))))))

-- sizeof(FirmwareFileEntries)
abbrev pub directory_size : ℕ
directory_size = 160

-- FILE_SECTORS of EEPROM.BIN
abbrev pub eeprom_sectors : ℕ
eeprom_sectors = 2

-- `FirmwareFileEntries` as it lies in memory, the chip, and its EEPROM.
pub record Disk (spm : Spm) : Type 0 where
  pub directory : Bytes
  pub chip : spm.Chip
  pub eeprom : Bytes

-- The StartingCluster of entry 2 and of entry 4.
abbrev pub flash_cluster : Bytes → ℕ
flash_cluster directory = directory 90 + 256 * directory 91

abbrev pub eeprom_cluster : Bytes → ℕ
eeprom_cluster directory = directory 154 + 256 * directory 155

-- `WriteEEPROMByte((uint8_t*)EEPROMAddress++, BlockBuffer[i]);` for so many bytes from number `i` on.
unfoldable pub write_eeprom_bytes : ℕ → ℕ → ℕ → Bytes → Bytes → Bytes
write_eeprom_bytes zero i addr buffer rom = rom
write_eeprom_bytes (suc n) i addr buffer rom =
    write_eeprom_bytes n (i + 1) ((addr + 1) % 65536) buffer (store addr (buffer i) rom)

-- `ReadWriteEEPROMFileBlock(BlockNumber, BlockBuffer, false)`
unfoldable pub write_eeprom_block : ℕ → ℕ → Bytes → Bytes → Bytes
unfolding write_eeprom_bytes
write_eeprom_block cluster block buffer rom =
    if in_file block (file_start cluster) eeprom_sectors
    then write_eeprom_bytes 512 0 (block_address block (file_start cluster)) buffer rom
    else rom

-- `ReadWriteEEPROMFileBlock(BlockNumber, BlockBuffer, true)`
unfoldable pub read_eeprom_block : ℕ → ℕ → Bytes → Bytes → Bytes
read_eeprom_block cluster block rom buffer i =
    if in_file block (file_start cluster) eeprom_sectors && ltb i sector_size
    then rom ((block_address block (file_start cluster) + i) % 65536)
    else buffer i

-- The first block, with its signature, and the block of the directory.
abbrev pub boot_sector : Bytes
boot_sector i = if i == 510 then 0x55 else if i == 511 then 0xaa else get_or boot_block i 0

abbrev pub directory_sector : Bytes → Bytes
directory_sector directory i = if ltb i directory_size then directory i else 0

module _ (spm : Spm) where
  -- `VirtualFAT_WriteBlock`, for the block that the host has sent.
  unfoldable pub write_block : ℕ → Bytes → Disk spm → Disk spm
  unfolding write_flash_block write_eeprom_block
  write_block block buffer d =
      if leb block 2
      then d
      else if block == 3
      then record d { directory = λ i. if ltb i directory_size then buffer i else d.directory i }
      else record d {
        chip = write_flash_block spm (flash_cluster d.directory) block buffer d.chip;
        eeprom = write_eeprom_block (eeprom_cluster d.directory) block buffer d.eeprom;
      }

  -- `VirtualFAT_ReadBlock`: the block that is sent to the host.
  unfoldable pub read_block : ℕ → Disk spm → Bytes
  unfolding fat_block read_flash_block read_eeprom_block
  read_block block d =
      if block == 0
      then boot_sector
      else if leb block 2
      then fat_block (flash_cluster d.directory) (eeprom_cluster d.directory)
      else if block == 3
      then directory_sector d.directory
      else read_eeprom_block (eeprom_cluster d.directory) block d.eeprom
          (read_flash_block spm (flash_cluster d.directory) block d.chip (λ i. 0))
