-- ===== src/Bootloader/Scsi/Report.antt =====
-- What the host is told of a command: the result and the sense data.
use usb_gpib.Base.{
  ℕ, Bool, true, false, ◌≡◌, refl, sym, ap, ◌∙◌, ◌&&◌, ◌||◌, ◌==◌, not, bit_and, ltb, leb,
  if◌then◌else◌, Bool-cases, inl, inr, arith,
}
use usb_gpib.Bootloader.Fat.{Bytes}
use usb_gpib.Bootloader.Flash.{Spm}
use usb_gpib.Bootloader.Disk.{media_blocks}
use usb_gpib.Bootloader.Scsi.{
  Command, Storage, write_blocks, total_blocks, good, illegal, invalid_command, invalid_field,
  out_of_range, block_number, set_sense, read_10, write_10, just_succeeds, dispatch_scsi,
  decode_scsi_command,
}

-- The commands that are carried out.
abbrev pub is_served : Bytes → Bool
is_served cdb =
    let o = cdb 0 in
    o == 0x12 && bit_and (cdb 1) 3 == 0 && cdb 2 == 0
    || (o == 0x28 || o == 0x2a) && ltb (block_number cdb) media_blocks
    || o == 0x03
    || o == 0x25
    || o == 0x1a
    || o == 0x1b
    || o == 0x1d
    || o == 0
    || o == 0x1e
    || o == 0x2f

-- Why the others are not.
abbrev pub reason : ℕ → ℕ
reason o =
    if o == 0x12
    then invalid_field
    else if o == 0x28 || o == 0x2a
    then out_of_range
    else invalid_command

pick {ℓ} :
    {A : Type 0} (P : A → Type ℓ) (b : Bool) {x y : A}
    → (b ≡ true → P x)
    → (b ≡ false → P y)
    → P (if b then x else y)
pick P true f g = f refl
pick P false f g = g refl

module _ (spm : Spm) (c : Command) (s : Storage spm) where
  abbrev failed : Storage spm
  failed = set_sense spm (illegal (reason (c.cdb 0))) s

  -- The result and the sense data, that nothing but the sense data changes where the command is not
  -- served, the disk, and the request to leave the boot loader.
  pub record IsReported (r : Bool × Storage spm) : Type 0 where
    pub result : r.0 ≡ is_served c.cdb
    pub sense : r.1.sense ≡ (if is_served c.cdb then good else illegal (reason (c.cdb 0)))
    pub unserved : (if is_served c.cdb then failed else r.1) ≡ failed
    pub disk : r.1.disk ≡ (
        if is_served c.cdb && c.cdb 0 == 0x2a
        then write_blocks spm (total_blocks c.cdb) 0 (block_number c.cdb) c.blocks s.disk
        else s.disk)
    pub running :
        r.1.run_bootloader
        ≡ (if c.cdb 0 == 0x1b then not (bit_and (c.cdb 4) 3 == 2) else s.run_bootloader)

  -- The same of `dispatch_scsi`, before the sense data are cleared.
  record IsDispatched (r : Bool × Storage spm) : Type 0 where
    result : r.0 ≡ is_served c.cdb
    unserved : (if is_served c.cdb then failed else r.1) ≡ failed
    disk : r.1.disk ≡ (
        if is_served c.cdb && c.cdb 0 == 0x2a
        then write_blocks spm (total_blocks c.cdb) 0 (block_number c.cdb) c.blocks s.disk
        else s.disk)
    running :
        r.1.run_bootloader
        ≡ (if c.cdb 0 == 0x1b then not (bit_and (c.cdb 4) 3 == 2) else s.run_bootloader)

  refused :
      (code : ℕ)
      → is_served c.cdb ≡ false
      → reason (c.cdb 0) ≡ code
      → (c.cdb 0 == 0x1b) ≡ false
      → IsDispatched (false, set_sense spm (illegal code) s)
  refused code off why other = record {
    result = sym off;
    unserved = rw off (ap (λ k. set_sense spm (illegal k) s) (sym why));
    disk = rw off refl;
    running = rw other refl;
  }

  served :
      (s' : Storage spm)
      → is_served c.cdb ≡ true
      → s'.disk ≡ (
          if c.cdb 0 == 0x2a
          then write_blocks spm (total_blocks c.cdb) 0 (block_number c.cdb) c.blocks s.disk
          else s.disk)
      → s'.run_bootloader
        ≡ (if c.cdb 0 == 0x1b then not (bit_and (c.cdb 4) 3 == 2) else s.run_bootloader)
      → IsDispatched (true, s')
  served s' on disk running = record {
    result = sym on;
    unserved = rw on refl;
    disk = rw on disk;
    running = running;
  }

  dispatched : IsDispatched (dispatch_scsi spm (c.cdb 0) c s)
  unfolding dispatch_scsi read_10 write_10
  dispatched =
      pick P (c.cdb 0 == 0x12)
        (λ a.
          pick P (not (bit_and (c.cdb 1) 3 == 0) || not (c.cdb 2 == 0))
            (λ b. refused _ (ground arith) (ground arith) (ground arith))
            λ b. served _ (ground arith) (ground arith) (ground arith))
        λ h1.
          pick P (c.cdb 0 == 0x03) (λ a. served _ (ground arith) (ground arith) (ground arith))
            λ h2.
              pick P (c.cdb 0 == 0x25) (λ a. served _ (ground arith) (ground arith) (ground arith))
                λ h3.
                  pick P (c.cdb 0 == 0x2a)
                    (λ a.
                      pick P (leb media_blocks (block_number c.cdb))
                        (λ b. refused _ (ground arith) (ground arith) (ground arith))
                        λ b. served _ (ground arith) (ground arith) (ground arith))
                    λ h4.
                      pick P (c.cdb 0 == 0x28)
                        (λ a.
                          pick P (leb media_blocks (block_number c.cdb))
                            (λ b. refused _ (ground arith) (ground arith) (ground arith))
                            λ b. served _ (ground arith) (ground arith) (ground arith))
                        λ h5.
                          pick P (c.cdb 0 == 0x1a)
                            (λ a. served _ (ground arith) (ground arith) (ground arith))
                            λ h6.
                              pick P (c.cdb 0 == 0x1b)
                                (λ a. served _ (ground arith) (ground arith) (ground arith))
                                λ h7.
                                  pick P (just_succeeds (c.cdb 0))
                                    (λ a. served _ (ground arith) (ground arith) (ground arith))
                                    λ h8. refused _ (ground arith) (ground arith) (ground arith)
    where
      P : Bool × Storage spm → Type 0
      P = IsDispatched

  -- `SCSI_DecodeSCSICommand` answers every command block so: with success and cleared sense data exactly
  -- where it is served, and else with failure, an illegal request for the right reason in the sense data,
  -- and nothing else changed. The disk is changed by a served WRITE (10) alone, which writes its blocks,
  -- and the request to leave the boot loader by START STOP UNIT alone.
  pub decode_scsi_command-IsReported : IsReported (decode_scsi_command spm c s)
  unfolding decode_scsi_command
  decode_scsi_command-IsReported = elim (Bool-cases (is_served c.cdb)) [
    | inl on ↦
        let ok : (dispatch_scsi spm (c.cdb 0) c s).0 ≡ true = dispatched.result ∙ on in
        rw ok (record {
          result = sym on;
          sense = rw on refl;
          unserved = rw on refl;
          disk = dispatched.disk;
          running = dispatched.running;
        })
    | inr off ↦
        let bad : (dispatch_scsi spm (c.cdb 0) c s).0 ≡ false = dispatched.result ∙ off in
        let same : (dispatch_scsi spm (c.cdb 0) c s).1 ≡ failed = rw off at dispatched.unserved in
        rw bad (record {
          result = sym off;
          sense = rw off (ap (λ t. t.sense) same);
          unserved = rw off same;
          disk = rw off (ap (λ t. t.disk) same);
          running = dispatched.running;
        })
  ]
