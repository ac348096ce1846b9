-- ===== src/Bootloader/Fat.antt =====
-- The file allocation table that VirtualFAT.c makes up: `UpdateFAT12ClusterEntry` and
-- `UpdateFAT12ClusterChain`.
pub mod Entry
pub mod Chain
use usb_gpib.Base.{ℕ, zero, suc, ◌+◌, ◌-◌, ◌*◌, ◌/◌, ◌%◌, ◌==◌, bit_or, if◌then◌else◌}

-- A block of bytes; a write changes one of them.
abbrev pub Bytes : Type 0
Bytes = ℕ → ℕ

abbrev pub store : ℕ → ℕ → Bytes → Bytes
store i v t a = if a == i then v else t a

-- `uint8_t FATOffset = (Index + (Index >> 1))`
abbrev pub fat_offset : ℕ → ℕ
fat_offset index = (index + index / 2) % 256

-- The entry starts at an upper nibble.
abbrev pub update_odd : ℕ → ℕ → Bytes → Bytes
update_odd off next t =
    store (off + 1) (next / 16 % 256) (store off (bit_or (t off % 16) (next % 16 * 16)) t)

-- The entry starts at a byte. The nibble of the entry after it is taken from the byte before it, which
-- holds the lower bits of this entry.
abbrev pub update_even : ℕ → ℕ → Bytes → Bytes
update_even off next t =
    let t' = store off (next % 256) t in
    store (off + 1) (bit_or (t' off / 16 % 16 * 16) (next / 256 % 256) % 256) t'

-- `UpdateFAT12ClusterEntry`
unfoldable pub update_entry : ℕ → ℕ → Bytes → Bytes
update_entry index next t =
    if index % 2 == 1
    then update_odd (fat_offset index) next t
    else update_even (fat_offset index) next t

-- The rounds of `UpdateFAT12ClusterChain` from number `i` on.
unfoldable pub chain_rounds : ℕ → ℕ → ℕ → ℕ → Bytes → Bytes
chain_rounds zero i index length t = t
chain_rounds (suc n) i index length t =
    let current = (index + i) % 65536 in
    let next = if i == length - 1 then 0xfff else (current + 1) % 65536 in
    chain_rounds n (i + 1) index length (update_entry current next t)

-- `UpdateFAT12ClusterChain`
unfoldable pub update_chain : ℕ → ℕ → Bytes → Bytes
unfolding chain_rounds update_entry
update_chain index length t = chain_rounds length 0 index length t

-- FILE_CLUSTERS of the two files: 24576 bytes of FLASH and 1023 of EEPROM in clusters of 2048 bytes.
abbrev pub flash_clusters : ℕ
flash_clusters = 12

abbrev pub eeprom_clusters : ℕ
eeprom_clusters = 1

-- The FAT blocks of `VirtualFAT_ReadBlock`, for the starting clusters of the two files.
unfoldable pub fat_block : ℕ → ℕ → Bytes
unfolding update_chain update_entry
fat_block flash_start eeprom_start = update_chain eeprom_start eeprom_clusters (
    update_chain flash_start flash_clusters
      (update_entry 1 0xfff (update_entry 0 (0xf00 + 0xf8) (λ a. 0))))
