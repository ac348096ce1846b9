-- ===== src/Bootloader/Scsi.antt =====
-- SCSI.c: `SCSI_DecodeSCSICommand` and the commands. The codes and the layouts of the answers are those
-- of the SCSI standards.
pub mod Report
pub mod Stored
pub mod Boot
use usb_gpib.Base.{
  min, ℕ, zero, suc, Bool, true, false, List, [], ◌∷◌, ◌++◌, ◌+◌, ◌-◌, ◌*◌, ◌/◌, ◌%◌, ◌^◌, ◌<◌,
  ◌&&◌, ◌||◌, ◌==◌, not, bit_and, ltb, leb, codes, if◌then◌else◌,
}
use usb_gpib.Bootloader.Fat.{Bytes}
use usb_gpib.Bootloader.Flash.{Spm, sector_size}
use usb_gpib.Bootloader.Disk.{Disk, media_blocks, write_block, read_block}

-- `SenseData`: what changes of it. The rest is as it was set up.
pub record Sense : Type 0 where
  pub key : ℕ
  pub code : ℕ
  pub qualifier : ℕ

abbrev pub good : Sense
good = record { key = 0; code = 0; qualifier = 0 }

-- SCSI_SENSE_KEY_ILLEGAL_REQUEST, with the additional code.
abbrev pub illegal : ℕ → Sense
illegal c = record { key = 5; code = c; qualifier = 0 }

abbrev pub invalid_command : ℕ
invalid_command = 0x20

abbrev pub invalid_field : ℕ
invalid_field = 0x24

abbrev pub out_of_range : ℕ
out_of_range = 0x21

abbrev pub sense_data : Sense → List ℕ
sense_data s =
    0x70 ∷ 0 ∷ s.key ∷ 0 ∷ 0 ∷ 0 ∷ 0 ∷ 0x0a ∷ 0 ∷ 0 ∷ 0 ∷ 0 ∷ s.code ∷ s.qualifier ∷ 0 ∷ 0 ∷ 0 ∷ 0
    ∷ []

-- `InquiryData`
abbrev pub inquiry_data : List ℕ
inquiry_data =
    (0 ∷ 0x80 ∷ 0 ∷ 2 ∷ 0x1f ∷ 0 ∷ 0 ∷ 0 ∷ [])
    ++ (codes "LUFA"
        ++ (0 ∷ 0 ∷ 0 ∷ 0 ∷ codes "Bootloader" ++ (0 ∷ 0 ∷ 0 ∷ 0 ∷ 0 ∷ 0 ∷ codes "0.00")))

-- A command block, and the blocks of data that the host sends with it.
pub record Command : Type 0 where
  pub cdb : Bytes
  pub blocks : ℕ → Bytes

-- The state that the commands use. DataTransferLength is what the host still expects.
pub record Storage (spm : Spm) : Type 0 where
  pub disk : Disk spm
  pub sense : Sense
  pub run_bootloader : Bool
  pub transfer_length : ℕ
  pub sent : List ℕ

-- So many bytes from number `i` on.
unfoldable pub listed : ℕ → ℕ → Bytes → List ℕ
listed zero i b = []
listed (suc n) i b = b i ∷ listed n (i + 1) b

-- `Endpoint_Write_Stream_LE(data, MIN(length, sizeof(data)))` and `Endpoint_Null_Stream` for the rest.
abbrev pub padded : ℕ → List ℕ → List ℕ
padded zero xs = []
padded (suc n) [] = 0 ∷ padded n []
padded (suc n) (x ∷ xs) = x ∷ padded n xs

-- The address is kept in a uint16_t, so that the upper half of it is lost.
abbrev pub block_number : Bytes → ℕ
block_number cdb = (((cdb 2 * 256 + cdb 3) * 256 + cdb 4) * 256 + cdb 5) % 65536

abbrev pub total_blocks : Bytes → ℕ
total_blocks cdb = cdb 7 * 256 + cdb 8

-- SCSI_CMD_SEND_DIAGNOSTIC, TEST_UNIT_READY, PREVENT_ALLOW_MEDIUM_REMOVAL and VERIFY_10
abbrev pub just_succeeds : ℕ → Bool
just_succeeds o = o == 0x1d || o == 0 || o == 0x1e || o == 0x2f

module _ (spm : Spm) where
  abbrev pub set_sense : Sense → Storage spm → Storage spm
  set_sense v s = record s { sense = v }

  abbrev pub reply : List ℕ → ℕ → Storage spm → Storage spm
  reply bytes n s = record s {
    sent = s.sent ++ bytes;
    transfer_length = (s.transfer_length + 2 ^ 32 - n) % 2 ^ 32;
  }

  -- `SCSI_Command_Inquiry`
  abbrev pub inquiry : Command → Storage spm → Bool × Storage spm
  inquiry c s =
      let allocation = c.cdb 3 * 256 + c.cdb 4 in
      if not (bit_and (c.cdb 1) 3 == 0) || not (c.cdb 2 == 0)
      then (false, set_sense (illegal invalid_field) s)
      else (true, reply (padded allocation inquiry_data) (min allocation 36) s)

  -- `SCSI_Command_Request_Sense`
  abbrev pub request_sense : Command → Storage spm → Bool × Storage spm
  request_sense c s = (true, reply (padded (c.cdb 4) (sense_data s.sense)) (min (c.cdb 4) 18) s)

  -- `SCSI_Command_Read_Capacity_10`
  abbrev pub read_capacity : Storage spm → Bool × Storage spm
  read_capacity s = (true, reply (0 ∷ 0 ∷ 0 ∷ (media_blocks - 1) ∷ 0 ∷ 0 ∷ 2 ∷ 0 ∷ []) 8 s)

  -- The loops of `SCSI_Command_ReadWrite_10`, for so many blocks from number `i` of the command on.
  unfoldable pub read_blocks : ℕ → ℕ → Disk spm → List ℕ
  unfolding read_block listed
  read_blocks zero address d = []
  read_blocks (suc n) address d =
      listed 512 0 (read_block spm address d) ++ read_blocks n ((address + 1) % 65536) d

  unfoldable pub write_blocks : ℕ → ℕ → ℕ → (ℕ → Bytes) → Disk spm → Disk spm
  unfolding write_block
  write_blocks zero i address blocks d = d
  write_blocks (suc n) i address blocks d =
      write_blocks n (i + 1) ((address + 1) % 65536) blocks (write_block spm address (blocks i) d)

  -- `SCSI_Command_ReadWrite_10` with DATA_READ and with DATA_WRITE
  unfoldable pub read_10 : Command → Storage spm → Bool × Storage spm
  unfolding read_blocks
  read_10 c s =
      if leb media_blocks (block_number c.cdb)
      then (false, set_sense (illegal out_of_range) s)
      else (
        true,
        reply (read_blocks (total_blocks c.cdb) (block_number c.cdb) s.disk)
            (total_blocks c.cdb * sector_size) s,
      )

  unfoldable pub write_10 : Command → Storage spm → Bool × Storage spm
  unfolding write_blocks
  write_10 c s =
      if leb media_blocks (block_number c.cdb)
      then (false, set_sense (illegal out_of_range) s)
      else (
        true,
        reply [] (total_blocks c.cdb * sector_size) (record s {
          disk = write_blocks (total_blocks c.cdb) 0 (block_number c.cdb) c.blocks s.disk;
        }),
      )

  -- `SCSI_Command_ModeSense_6`
  abbrev pub mode_sense : Storage spm → Bool × Storage spm
  mode_sense s = (true, reply (0 ∷ 0 ∷ 0 ∷ 0 ∷ []) 4 s)

  abbrev pub no_data : Storage spm → Bool × Storage spm
  no_data s = (true, record s { transfer_length = 0 })

  abbrev pub start_stop : Command → Storage spm → Bool × Storage spm
  start_stop c s = no_data (record s { run_bootloader = not (bit_and (c.cdb 4) 3 == 2) })

  unfoldable pub dispatch_scsi : ℕ → Command → Storage spm → Bool × Storage spm
  unfolding read_10 write_10
  dispatch_scsi o c s =
      if o == 0x12
      then inquiry c s
      else if o == 0x03
      then request_sense c s
      else if o == 0x25
      then read_capacity s
      else if o == 0x2a
      then write_10 c s
      else if o == 0x28
      then read_10 c s
      else if o == 0x1a
      then mode_sense s
      else if o == 0x1b
      then start_stop c s
      else if just_succeeds o
      then no_data s
      else (false, set_sense (illegal invalid_command) s)

  -- `SCSI_DecodeSCSICommand`
  unfoldable pub decode_scsi_command : Command → Storage spm → Bool × Storage spm
  unfolding dispatch_scsi
  decode_scsi_command c s =
      let result = dispatch_scsi (c.cdb 0) c s in
      if result.0 then (true, set_sense good result.1) else (false, result.1)
