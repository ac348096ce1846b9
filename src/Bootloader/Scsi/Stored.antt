-- ===== src/Bootloader/Scsi/Stored.antt =====
-- A file that is written with WRITE (10) and read again with READ (10).
use usb_gpib.Base.{
  ℕ, zero, suc, Bool, true, false, ◌≡◌, refl, sym, ap, subst, ◌∙◌, ◌+◌, ◌-◌, ◌%◌, ◌≤◌, ◌<◌, ◌&&◌,
  ltb, leb, if◌then◌else◌, List, [], ◌++◌, append-nil, arith,
}
use usb_gpib.Bootloader.Fat.{Bytes}
use usb_gpib.Bootloader.Flash.{Spm}
use usb_gpib.Bootloader.Disk.{Disk, media_blocks, write_block, read_block}
use usb_gpib.Bootloader.Disk.Eeprom.{row_step}
use usb_gpib.Bootloader.Disk.Blocks.{IsFile, AreFile, read-write_block, write_block-directory}
use usb_gpib.Bootloader.Scsi.{
  Command, Storage, listed, block_number, total_blocks, read_blocks, write_blocks, read_10,
  write_10, dispatch_scsi, decode_scsi_command,
}

listed-ext :
    (n i : ℕ) (b b' : Bytes)
    → ((k : ℕ) → i ≤ k → k < i + n → b k ≡ b' k)
    → listed n i b ≡ listed n i b'
unfolding listed
listed-ext zero i b b' h = refl
listed-ext (suc n) i b b' h =
    let rest = listed-ext n (i + 1) b b' (λ k lo hi. h k (omega arith) (omega arith)) in
    rw (h i (omega arith) (omega arith), rest) refl

-- The bytes of so many blocks of a command, from its block with number `i` on.
abbrev pub sent_blocks : ℕ → ℕ → (ℕ → Bytes) → List ℕ
unfolding listed
sent_blocks zero i blocks = []
sent_blocks (suc n) i blocks = listed 512 0 (blocks i) ++ sent_blocks n (i + 1) blocks

module _ (spm : Spm) (blocks : ℕ → Bytes) (bytes : (k i : ℕ) → blocks k i < 256) where
  write_blocks-directory :
      (n i address : ℕ) (d : Disk spm)
      → address + n ≤ 65535
      → AreFile d.directory address n
      → (write_blocks spm n i address blocks d).directory ≡ d.directory
  unfolding write_blocks
  write_blocks-directory zero i address d room h = refl
  write_blocks-directory (suc n) i address d room h =
      let next : (address + 1) % 65536 ≡ address + 1 = omega arith in
      let d' = write_block spm address (blocks i) d in
      let same =
        write_block-directory spm address (blocks i) d
          (h address (omega arith) (omega arith)).behind in
      ap (λ a. (write_blocks spm n (i + 1) a blocks d').directory) next
      ∙ write_blocks-directory n (i + 1) (address + 1) d' (omega arith)
          (λ k lo hi. subst (λ t. IsFile t k) (sym same) (h k (omega arith) (omega arith)))
      ∙ same

  -- What a block holds after several were written.
  write_blocks-read :
      (n i address other j : ℕ) (d : Disk spm)
      → address + n ≤ 65535
      → AreFile d.directory address n
      → IsFile d.directory other
      → j < 512
      → read_block spm other (write_blocks spm n i address blocks d) j ≡ (
          if leb address other && ltb other (address + n)
          then blocks (i + (other - address)) j
          else read_block spm other d j)
  unfolding write_blocks
  write_blocks-read zero i address other j d room h k hj = ground arith
  write_blocks-read (suc n) i address other j d room h k hj =
      let next : (address + 1) % 65536 ≡ address + 1 = omega arith in
      let d' = write_block spm address (blocks i) d in
      let here = h address (omega arith) (omega arith) in
      let same = write_block-directory spm address (blocks i) d here.behind in
      let rest =
        write_blocks-read n (i + 1) (address + 1) other j d' (omega arith)
          (λ m lo hi. subst (λ t. IsFile t m) (sym same) (h m (omega arith) (omega arith)))
          (subst (λ t. IsFile t other) (sym same) k) hj in
      let now = read-write_block spm address j (blocks i) d (bytes i) other here k hj in
      rw (next, rest, now) (row_step i address other n (λ k. blocks k j) _)

  read_blocks-written :
      (m n i address : ℕ) (d : Disk spm)
      → i + m ≡ n
      → address + n ≤ 65535
      → AreFile d.directory address n
      → read_blocks spm m (address + i) (write_blocks spm n 0 address blocks d)
        ≡ sent_blocks m i blocks
  unfolding read_blocks
  read_blocks-written zero n i address d count room h = refl
  read_blocks-written (suc m) n i address d count room h =
      let next : (address + i + 1) % 65536 ≡ address + (i + 1) = omega arith in
      let d' = write_blocks spm n 0 address blocks d in
      let rest = read_blocks-written m n (i + 1) address d (omega arith) room h in
      let block = listed-ext 512 0 (read_block spm (address + i) d') (blocks i) (λ j lo hi.
        write_blocks-read n 0 address (address + i) j d room h
          (h (address + i) (omega arith) (omega arith)) hi
        ∙ ground arith) in
      ap (λ b. b ++ read_blocks spm m ((address + i + 1) % 65536) d') block
      ∙ ap (λ a. listed 512 0 (blocks i) ++ read_blocks spm m a d') next
      ∙ ap (λ r. listed 512 0 (blocks i) ++ r) rest

module _ (spm : Spm) (c : Command) (s : Storage spm)
    (inside : block_number c.cdb < media_blocks) where
  abbrev run : Bool × Storage spm
  run = decode_scsi_command spm c s

  in_range : leb media_blocks (block_number c.cdb) ≡ false
  in_range = ground arith

  decode-write :
      c.cdb 0 ≡ 0x2a
      → (run.0 ≡ true)
        × (run.1.disk
            ≡ write_blocks spm (total_blocks c.cdb) 0 (block_number c.cdb) c.blocks s.disk)
        × (run.1.sent ≡ s.sent ++ [])
  unfolding decode_scsi_command dispatch_scsi write_10
  decode-write op = rw (op, in_range) (refl, refl, refl)

  decode-read :
      c.cdb 0 ≡ 0x28
      → (run.0 ≡ true)
        × (run.1.sent ≡ s.sent ++ read_blocks spm (total_blocks c.cdb) (block_number c.cdb) s.disk)
  unfolding decode_scsi_command dispatch_scsi read_10
  decode-read op = rw (op, in_range) (refl, refl)

-- Blocks of FLASH.BIN and EEPROM.BIN, wherever the directory has put the files on the disk, that the host
-- writes with one WRITE (10), the bytes of every block being bytes, and reads with a READ (10) of the same
-- blocks right after it: both commands succeed, and what is sent for the second one is, byte for byte and
-- in order, what came with the first.
pub read_10-write_10 :
    (spm : Spm) (w r : Command) (s : Storage spm)
    → w.cdb 0 ≡ 0x2a
    → r.cdb 0 ≡ 0x28
    → block_number r.cdb ≡ block_number w.cdb
    → total_blocks r.cdb ≡ total_blocks w.cdb
    → block_number w.cdb < media_blocks
    → block_number w.cdb + total_blocks w.cdb ≤ media_blocks
    → AreFile s.disk.directory (block_number w.cdb) (total_blocks w.cdb)
    → ((k i : ℕ) → w.blocks k i < 256)
    → ((decode_scsi_command spm w s).0 ≡ true)
      × ((decode_scsi_command spm r (decode_scsi_command spm w s).1).0 ≡ true)
      × ((decode_scsi_command spm r (decode_scsi_command spm w s).1).1.sent
          ≡ s.sent ++ sent_blocks (total_blocks w.cdb) 0 w.blocks)
read_10-write_10 spm w r s is_write is_read same_place same_count inside room files bytes =
    let s' = (decode_scsi_command spm w s).1 in
    let n = total_blocks w.cdb in
    let a = block_number w.cdb in
    let write = decode-write spm w s inside is_write in
    let read = decode-read spm r s' (omega arith) is_read in
    let back =
      read_blocks-written spm w.blocks bytes n n 0 a s.disk (omega arith) (omega arith) files in
    let zero_off : a + 0 ≡ a = omega arith in
    (
      write.0,
      read.0,
      read.1
          ∙ ap (λ m. s'.sent ++ read_blocks spm m (block_number r.cdb) s'.disk) same_count
          ∙ ap (λ b. s'.sent ++ read_blocks spm n b s'.disk) (same_place ∙ sym zero_off)
          ∙ ap (λ d. s'.sent ++ read_blocks spm n (a + 0) d) write.1
          ∙ ap (λ l. s'.sent ++ l) back
          ∙ ap (λ l. l ++ sent_blocks n 0 w.blocks) (write.2 ∙ append-nil s.sent),
    )
