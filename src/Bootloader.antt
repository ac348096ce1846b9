-- ===== src/Bootloader.antt =====
-- SW/MassStorage: the boot loader, a mass storage device with a virtual FAT12 disk whose two files are
-- the FLASH and the EEPROM of the chip.
pub mod Fat
pub mod Flash
pub mod Disk
pub mod Scsi
pub mod Main
mod Tests
