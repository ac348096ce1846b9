-- ===== src/Bootloader/Disk/Directory.antt =====
-- `FirmwareFileEntries` as it is at first, and the macros of VirtualFAT.h that it is made with.
use usb_gpib.Base.{
  ℕ, List, [], ◌∷◌, ◌++◌, ◌+◌, ◌-◌, ◌*◌, ◌/◌, ◌%◌, ◌==◌, bit_or, codes, get_or, if◌then◌else◌,
}
use usb_gpib.Bootloader.Fat.{Bytes, flash_clusters}
use usb_gpib.Bootloader.Disk.{little_endian}

-- FAT_TIME and FAT_DATE
abbrev pub fat_time : ℕ → ℕ → ℕ → ℕ
fat_time hh mm ss = bit_or (bit_or (hh * 2048) (mm * 32)) (ss / 2)

abbrev pub fat_date : ℕ → ℕ → ℕ → ℕ
fat_date dd mm yyyy = bit_or (bit_or ((yyyy - 1980) * 512) (mm * 32)) dd

-- ROT8
abbrev pub rot8 : ℕ → ℕ
rot8 x = bit_or (x % 256 / 2) (if x % 2 == 1 then 0x80 else 0)

-- FAT_CHECKSUM, of the first character and the others: only the whole of it is cut to a byte.
abbrev pub checksum_of : ℕ → List ℕ → ℕ
checksum_of sum [] = sum
checksum_of sum (c ∷ cs) = checksum_of (rot8 sum + c) cs

abbrev pub fat_checksum : List ℕ → ℕ
fat_checksum [] = 0
fat_checksum (c ∷ cs) = checksum_of c cs % 256

abbrev unicode : List ℕ → List ℕ
unicode [] = []
unicode (c ∷ cs) = c ∷ 0 ∷ unicode cs

-- A VFAT_LongFileName, for a name of at most thirteen characters, filled up with zeroes.
abbrev pub long_name : List ℕ → List ℕ → List ℕ → List ℕ → List ℕ
long_name name first middle last =
    (0x41 ∷ unicode first)
    ++ (0x0f ∷ 0 ∷ fat_checksum name ∷ unicode middle)
    ++ (0 ∷ 0 ∷ unicode last)

-- An MSDOS_File or an MSDOS_Directory.
abbrev pub short_name : List ℕ → ℕ → ℕ → ℕ → ℕ → ℕ → List ℕ
short_name name attributes time date cluster size =
    name
    ++ (attributes ∷ 0 ∷ 0 ∷ 0 ∷ 0 ∷ 0 ∷ 0 ∷ 0 ∷ 0 ∷ 0 ∷ 0 ∷ [])
    ++ little_endian time
    ++ little_endian date
    ++ little_endian cluster
    ++ little_endian (size % 65536)
    ++ little_endian (size / 65536)

-- FLASH_FILE_SIZE_BYTES and EEPROM_FILE_SIZE_BYTES
abbrev pub flash_size : ℕ
flash_size = 24576

abbrev pub eeprom_size : ℕ
eeprom_size = 1023

abbrev pub firmware_file_entries : List ℕ
firmware_file_entries =
    short_name (codes "GPIBUSBBOOT") 8 0 0 0 0
    ++ long_name (codes "FLASH   BIN") (codes "FLASH") (codes ".BIN" ++ (0 ∷ 0 ∷ [])) (0 ∷ 0 ∷ [])
    ++ short_name (codes "FLASH   BIN") 0 (fat_time 1 1 0) (fat_date 14 2 1989) 2 flash_size
    ++ long_name (codes "EEPROM  BIN") (codes "EEPRO") (codes "M.BIN" ++ (0 ∷ [])) (0 ∷ 0 ∷ [])
    ++ short_name (codes "EEPROM  BIN") 0 (fat_time 1 1 0) (fat_date 14 2 1989) (2 + flash_clusters)
        eeprom_size

abbrev pub first_directory : Bytes
first_directory a = get_or firmware_file_entries a 0
