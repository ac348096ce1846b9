-- ===== src/Bootloader/Tests.antt =====
-- Runs of the boot loader on concrete inputs.
use usb_gpib.Base.{
  ◌≤◌, ℕ, true, false, [], ◌∷◌, ◌++◌, none, some, ◌≡◌, refl, ◌+◌, ◌/◌, ◌%◌, ◌<◌, ◌&&◌, ◌||◌, ◌==◌,
  if◌then◌else◌, arith,
}
use usb_gpib.Bootloader.Fat.{Bytes, fat_block}
use usb_gpib.Bootloader.Fat.Chain.{IsTable, fat_block-IsTable}
use usb_gpib.Bootloader.Flash.{Spm, write_flash_block, read_flash_block}
use usb_gpib.Bootloader.Flash.Block.{read-write_flash_block}
use usb_gpib.Bootloader.Disk.Directory.{first_directory}
use usb_gpib.Bootloader.Disk.Host.{host_byte, host_byte-files}
use usb_gpib.Bootloader.Disk.Blocks.{AreFile}
use usb_gpib.Bootloader.Scsi.{Command, Storage, good, decode_scsi_command}
use usb_gpib.Bootloader.Scsi.Report.{IsReported, decode_scsi_command-IsReported}
use usb_gpib.Bootloader.Scsi.Boot.{after_commands, commands-boot}
use usb_gpib.Bootloader.Scsi.Stored.{sent_blocks, read_10-write_10}
use usb_gpib.Bootloader.Main.{
  Loader, Reset, Leds, main_loop, boot_main, magic_boot_key, application_jump_check,
}
use usb_gpib.Bootloader.Main.Jump.{application_jump_check_lem}
use usb_gpib.Bootloader.Main.Leave.{
  idle, EndsIn, main_loop-waits, main_loop-leaves, boot_main-leaves,
}

-- A chip, as the data sheet has it.
record Memory : Type 0 where
  flash : Bytes
  buffer : Bytes

abbrev cleared : Bytes
cleared o = 0xff

abbrev fill : ℕ → ℕ → Memory → Memory
fill p v m = record m {
  buffer = λ o. if o == p % 128 then v % 256 else if o == p % 128 + 1 then v / 256 else m.buffer o;
}

abbrev erase : ℕ → Memory → Memory
erase p m = record { flash = λ a. if a / 128 == p / 128 then 0xff else m.flash a; buffer = cleared }

abbrev write : ℕ → Memory → Memory
write p m = record {
  flash = λ a. if a / 128 == p / 128 then m.buffer (a % 128) else m.flash a;
  buffer = cleared;
}

written_page :
    (p a : ℕ) (m : Memory)
    → a / 128 ≡ p / 128
    → m.flash a ≡ 0xff
    → (write p m).flash a ≡ m.buffer (a % 128)
written_page p a m same blank = ground arith

other_page : (p a : ℕ) (m : Memory) → ¬ (a / 128 ≡ p / 128) → (write p m).flash a ≡ m.flash a
other_page p a m differ = ground arith

abbrev memory_spm : Spm
memory_spm = record {
  Chip = Memory;
  byte = λ m. m.flash;
  held = λ m. m.buffer;
  erase = erase;
  fill = fill;
  write = write;
  byte-erase = λ p a m. refl;
  held-erase = λ p o m. refl;
  byte-fill = λ p v a m. refl;
  held-fill = λ p v o m low high. refl;
  byte-write_page = written_page;
  byte-write_other = other_page;
}

abbrev blank : Memory
blank = record { flash = cleared; buffer = cleared }

abbrev image : ℕ → Bytes
image k i = (i + k) % 256

image_bytes : (k i : ℕ) → image k i < 256
image_bytes k i = omega arith

abbrev storage : Storage memory_spm
storage = record {
  disk = record { directory = first_directory; chip = blank; eeprom = cleared };
  sense = good;
  run_bootloader = true;
  transfer_length = 1024;
  sent = [];
}

abbrev command : ℕ → ℕ → Command
command op address = record {
  cdb = λ i.
      if i == 0
      then op
      else if i == 5
      then address
      else if i == 8 || i == 4 && op == 0x1b
      then 2
      else 0;
  blocks = image;
}

-- The last block of FLASH.BIN and the first one of EEPROM.BIN.
last_blocks-AreFile : AreFile first_directory 51 2
last_blocks-AreFile k lo hi = record { behind = omega arith; within = ground arith }

last_address : 51 < 82
last_address = omega arith

last_room : 51 + 2 ≤ 82
last_room = omega arith

fat_block-IsTable_example : IsTable 2 14 (fat_block 2 14)
fat_block-IsTable_example = fat_block-IsTable 2 14 (omega arith) (omega arith) (omega arith)

host_byte-files_example :
    (host_byte memory_spm storage.disk 2 5000 ≡ 255)
    × (host_byte memory_spm storage.disk 4 700 ≡ 255)
host_byte-files_example =
    host_byte-files memory_spm storage.disk (omega arith) (omega arith) (omega arith) 5000 700
      (omega arith) (omega arith)

read-write_flash_block_example :
    read_flash_block memory_spm 2 5 (write_flash_block memory_spm 2 5 (image 0) blank) cleared 300
    ≡ 44
read-write_flash_block_example =
    read-write_flash_block memory_spm (image 0) (image_bytes 0) 2 5 blank 5 300 cleared

-- A host that writes the root directory, the file and its end.
commands-boot_example :
    (after_commands memory_spm (command 0x2a 3 ∷ command 0x2a 50 ∷ []) storage).disk.chip.flash
      24576
    ≡ 255
commands-boot_example =
    commands-boot memory_spm 24576 (omega arith) (command 0x2a 3 ∷ command 0x2a 50 ∷ []) storage
      (image_bytes, (image_bytes, tt))

decode_scsi_command-IsReported_example :
    IsReported memory_spm
      (command 0x28 90)
      storage
      (decode_scsi_command memory_spm (command 0x28 90) storage)
decode_scsi_command-IsReported_example =
    decode_scsi_command-IsReported memory_spm (command 0x28 90) storage

read_10-write_10_example :
    ((decode_scsi_command memory_spm (command 0x2a 51) storage).0 ≡ true)
    × ((decode_scsi_command memory_spm
          (command 0x28 51)
          (decode_scsi_command memory_spm (command 0x2a 51) storage).1).0
        ≡ true)
    × ((decode_scsi_command memory_spm
          (command 0x28 51)
          (decode_scsi_command memory_spm (command 0x2a 51) storage).1).1.sent
        ≡ sent_blocks 2 0 image)
read_10-write_10_example =
    read_10-write_10 memory_spm (command 0x2a 51) (command 0x28 51) storage refl refl refl refl
      last_address last_room last_blocks-AreFile image_bytes

abbrev loader : Loader memory_spm
loader = record {
  storage = storage;
  ticks_since_last_command = 0;
  leds = Leds.ready;
  attached = true;
  boot_key = 0;
  watchdog = false;
}

abbrev eject : Command
eject = command 0x1b 0

left :
    (l' : Loader memory_spm) × (main_loop memory_spm (some eject ∷ (idle 255 ++ (none ∷ []))) loader
      ≡ some (none ∷ [], l'))
left = main_loop-leaves memory_spm loader eject none [] refl refl refl

boot_main-leaves_example :
    (l' : Loader memory_spm) × (boot_main memory_spm (some eject ∷ (idle 255 ++ (none ∷ []))) loader
      ≡ some l')
    × (l'.attached ≡ false)
    × (l'.boot_key ≡ magic_boot_key)
    × (l'.watchdog ≡ true)
boot_main-leaves_example = boot_main-leaves memory_spm loader eject none [] refl refl refl

main_loop-waits_example : EndsIn (some eject ∷ (idle 255 ++ (none ∷ []))) (none ∷ [])
main_loop-waits_example =
    main_loop-waits memory_spm loader (some eject ∷ (idle 255 ++ (none ∷ []))) (none ∷ []) left.0
      refl left.1

abbrev after_watchdog : Reset
after_watchdog = record {
  mcusr = 8;
  high_fuse = 0xd9;
  boot_key = 0xdc42;
  pb2 = false;
  first_word = 0x940c;
}

application_jump_check_lem_example :
    ((application_jump_check after_watchdog).0 ≡ false)
    × ((application_jump_check after_watchdog).1.boot_key ≡ 0xdc42)
application_jump_check_lem_example = application_jump_check_lem after_watchdog
