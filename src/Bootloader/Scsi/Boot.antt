-- ===== src/Bootloader/Scsi/Boot.antt =====
-- The part of the FLASH where the boot loader stands, under the commands of a host.
use usb_gpib.Base.{
  ℕ, zero, suc, Bool, true, false, List, [], ◌∷◌, ◌≡◌, refl, ◌∙◌, ap, ◌+◌, ◌%◌, ◌≤◌, ◌<◌, ◌&&◌,
  ◌==◌, leb, if◌then◌else◌, Bool-cases, inl, inr,
}
use usb_gpib.Bootloader.Fat.{Bytes}
use usb_gpib.Bootloader.Flash.{Spm}
use usb_gpib.Bootloader.Flash.Block.{write_flash_block-boot}
use usb_gpib.Bootloader.Disk.{Disk, flash_cluster, write_block}
use usb_gpib.Bootloader.Scsi.{
  Command, Storage, block_number, total_blocks, write_blocks, decode_scsi_command,
}
use usb_gpib.Bootloader.Scsi.Report.{is_served, decode_scsi_command-IsReported}

-- The data that come with a command are bytes.
abbrev pub HasBytes : Command → Type 0
HasBytes c = (k i : ℕ) → c.blocks k i < 256

abbrev pub AllHaveBytes : List Command → Type 0
AllHaveBytes [] = Unit {0}
AllHaveBytes (c ∷ cs) = HasBytes c × AllHaveBytes cs

module _ (spm : Spm) where
  abbrev byte_at : ℕ → Disk spm → ℕ
  byte_at a d = spm.byte d.chip a

  -- The state after the commands of a host, in order.
  abbrev pub after_commands : List Command → Storage spm → Storage spm
  after_commands [] s = s
  after_commands (c ∷ cs) s = after_commands cs (decode_scsi_command spm c s).1

  module _ (a : ℕ) (high : 24576 ≤ a) where
    write_block-boot :
        (block : ℕ) (buffer : Bytes) (d : Disk spm)
        → ((k : ℕ) → buffer k < 256)
        → byte_at a (write_block spm block buffer d) ≡ byte_at a d
    unfolding write_block
    write_block-boot block buffer d bytes = elim (Bool-cases (leb block 2)) [
      | inl low ↦ rw low refl
      | inr data_or_root ↦ elim (Bool-cases (block == 3)) [
        | inl root ↦ rw (data_or_root, root) refl
        | inr file ↦
            rw (data_or_root, file)
              (write_flash_block-boot spm buffer bytes (flash_cluster d.directory) block d.chip a
                high)
      ]
    ]

    write_blocks-boot :
        (n i address : ℕ) (blocks : ℕ → Bytes) (d : Disk spm)
        → ((k j : ℕ) → blocks k j < 256)
        → byte_at a (write_blocks spm n i address blocks d) ≡ byte_at a d
    unfolding write_blocks
    write_blocks-boot zero i address blocks d bytes = refl
    write_blocks-boot (suc n) i address blocks d bytes =
        write_blocks-boot n (i + 1) ((address + 1) % 65536) blocks
          (write_block spm address (blocks i) d) bytes
        ∙ write_block-boot address (blocks i) d (bytes i)

    decode-boot :
        (c : Command) (s : Storage spm)
        → HasBytes c
        → byte_at a (decode_scsi_command spm c s).1.disk ≡ byte_at a s.disk
    decode-boot c s bytes =
        ap (byte_at a) (decode_scsi_command-IsReported spm c s).disk
        ∙ by_case (is_served c.cdb && c.cdb 0 == 0x2a)
      where
        by_case :
            (b : Bool)
            → byte_at a (
                if b
                then write_blocks spm (total_blocks c.cdb) 0 (block_number c.cdb) c.blocks s.disk
                else s.disk)
              ≡ byte_at a s.disk
        by_case true =
            write_blocks-boot (total_blocks c.cdb) 0 (block_number c.cdb) c.blocks s.disk bytes
        by_case false = refl

    -- Whatever commands a host sends, and wherever it has put the files of the disk: the FLASH from
    -- address 24576 on, where the boot loader and its helpers stand, is what it was.
    pub commands-boot :
        (cs : List Command) (s : Storage spm)
        → AllHaveBytes cs
        → spm.byte (after_commands cs s).disk.chip a ≡ spm.byte s.disk.chip a
    commands-boot [] s bytes = refl
    commands-boot (c ∷ cs) s bytes =
        commands-boot cs (decode_scsi_command spm c s).1 bytes.1 ∙ decode-boot c s bytes.0
