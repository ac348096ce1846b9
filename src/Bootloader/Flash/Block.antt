-- ===== src/Bootloader/Flash/Block.antt =====
-- A block of FLASH.BIN: what is written to it is read again.
use usb_gpib.Base.{
  ℕ, zero, suc, Bool, true, false, ◌≡◌, ◌≢◌, refl, ◌∙◌, sym, ap, subst, ◌+◌, ◌-◌, ◌*◌, ◌%◌, ◌≤◌,
  ◌<◌, ◌&&◌, ◌==◌, ltb, if◌then◌else◌, ==_iff, Bool-cases, inl, inr, arith,
}
use usb_gpib.Bootloader.Fat.{Bytes}
use usb_gpib.Bootloader.Flash.{
  Spm, write_word, write_words, write_flash_block, read_flash_block, in_file, file_start,
  flash_sectors, block_address,
}
use usb_gpib.Bootloader.Flash.Page.{wanted, IsBetween, begin, middle, finish}

module _ (spm : Spm) (buffer : Bytes) (bytes : (k : ℕ) → buffer k < 256) where
  module _ (base : ℕ) (c0 : spm.Chip) (aligned : base % 512 ≡ 0) (room : base + 512 ≤ 24576) where
    abbrev Between : ℕ → spm.Chip → Type 0
    Between = IsBetween spm base buffer c0

    word-Between :
        (i : ℕ) (c : spm.Chip)
        → i + 2 ≤ 512
        → i % 2 ≡ 0
        → Between (base + i) c
        → Between (base + i + 2) (write_word spm (base + i) (buffer i) (buffer (i + 1)) c)
    unfolding write_word
    word-Between i c to even h =
        let at : base + i - base ≡ i = omega arith in
        subst
          (λ k. Between (base + i + 2) (write_word spm (base + i) (buffer k) (buffer (k + 1)) c)) at
          (finish spm base buffer c0 (base + i) (omega arith) (omega arith) aligned (omega arith)
            room bytes _
            (middle spm base buffer c0 (base + i) (omega arith) (omega arith) aligned (omega arith)
              room bytes _
              (begin spm base buffer c0 (base + i) (omega arith) (omega arith) aligned (omega arith)
                room c h)))

    words-Between :
        (n i : ℕ) (c : spm.Chip)
        → i + 2 * n ≡ 512
        → Between (base + i) c
        → Between (base + 512) (write_words spm n i (base + i) buffer c)
    unfolding write_words
    words-Between zero i c rest h = subst (λ k. Between k c) (omega arith) h
    words-Between (suc n) i c rest h =
        let next : (base + i + 2) % 65536 ≡ base + (i + 2) = omega arith in
        let here : base + i + 2 ≡ base + (i + 2) = omega arith in
        let c' = write_word spm (base + i) (buffer i) (buffer (i + 1)) c in
        subst (λ k. Between (base + 512) (write_words spm n (i + 2) k buffer c')) (sym next)
          (words-Between n (i + 2) c' (omega arith)
            (subst (λ k. Between k c') here (word-Between i c (omega arith) (omega arith) h)))

    -- The whole block.
    written_block :
        (a : ℕ) → spm.byte (write_words spm 256 0 base buffer c0) a ≡ wanted spm base buffer c0 a
    written_block a =
        let h : Between (base + 512) (write_words spm 256 0 base buffer c0) =
          subst (λ k. Between (base + 512) (write_words spm 256 0 k buffer c0)) (omega arith)
            (words-Between 256 0 c0 refl start) in
        elim (Bool-cases (ltb a (base + 512))) [
          | inl inside ↦ h.behind.below a (ground arith)
          | inr behind ↦ h.behind.above a (ground arith) ∙ ground arith
        ]
      where
        start : Between (base + 0) c0
        start = record {
          behind = record { below = λ a ha. ground arith; above = λ a ha. refl };
          started = λ ne. absurd (ne (omega arith));
        }

  module _ (cluster block : ℕ) (c : spm.Chip) where
    abbrev start : ℕ
    start = file_start cluster

    abbrev address : ℕ
    address = block_address block start

    -- Within the file.
    inside :
        in_file block start flash_sectors ≡ true
        → (address ≡ (block - start) * 512) × (block - start ≤ 47) × (start ≤ block)
    inside h = ground arith

    block-byte :
        (a : ℕ)
        → in_file block start flash_sectors ≡ true
        → spm.byte (write_flash_block spm cluster block buffer c) a ≡ wanted spm address buffer c a
    unfolding write_flash_block
    block-byte a h =
        rw h (written_block address c (omega (arith, inside h)) (omega (arith, inside h)) a)

    block-outside :
        in_file block start flash_sectors ≡ false → write_flash_block spm cluster block buffer c ≡ c
    unfolding write_flash_block
    block-outside h = rw h

    -- Where the bytes of a block of the file are read.
    abbrev place : ℕ → ℕ → ℕ
    place other i = (block_address other start + i) % 65536

    wanted_same :
        (other i : ℕ)
        → in_file block start flash_sectors ≡ true
        → i < 512
        → other ≡ block
        → wanted spm address buffer c (place other i) ≡ buffer i
    wanted_same other i h hi same =
        let here : wanted spm address buffer c (place other i) ≡ buffer (place other i - address) =
          ground (arith, inside h) in
        here ∙ ap buffer (ground (arith, inside h))

    wanted_other :
        (other i : ℕ)
        → in_file block start flash_sectors ≡ true
        → in_file other start flash_sectors ≡ true
        → i < 512
        → other ≢ block
        → wanted spm address buffer c (place other i) ≡ spm.byte c (place other i)
    wanted_other other i h k hi differ = ground (arith, inside h)

    read_is :
        (other i : ℕ) (old : Bytes) (d : spm.Chip) (b : Bool)
        → (in_file other start flash_sectors && ltb i 512) ≡ b
        → read_flash_block spm cluster other d old i
          ≡ (if b then spm.byte d (place other i) else old i)
    unfolding read_flash_block
    read_is other i old d b k = rw k

    -- Reading a block of the disk after a block was written: the bytes that were written, where it is
    -- the same block and within FLASH.BIN; what was read before, in every other case.
    pub read-write_flash_block :
        (other i : ℕ) (old : Bytes)
        → read_flash_block spm cluster other (write_flash_block spm cluster block buffer c) old i
          ≡ (if other == block && in_file block start flash_sectors && ltb i 512
              then buffer i
              else read_flash_block spm cluster other c old i)
    read-write_flash_block other i old = elim (Bool-cases (in_file block start flash_sectors)) [
      | inl h ↦ elim (Bool-cases (in_file other start flash_sectors && ltb i 512)) [
        | inl k ↦ elim (Bool-cases (other == block)) [
          | inl same ↦
              read_is other i old _ true k
              ∙ block-byte (place other i) h
              ∙ wanted_same other i h (ground arith) ((==_iff other block).0 same)
              ∙ ground arith
          | inr differ ↦
              read_is other i old _ true k
              ∙ block-byte (place other i) h
              ∙ wanted_other other i h (ground arith) (ground arith) (ground arith)
              ∙ sym (read_is other i old c true k)
              ∙ ground arith
        ]
        | inr k ↦ read_is other i old _ false k ∙ sym (read_is other i old c false k) ∙ ground arith
      ]
      | inr h ↦
          ap (λ d. read_flash_block spm cluster other d old i) (block-outside h) ∙ ground arith
    ]

    -- A write stays below the boot loader and its helpers.
    pub write_flash_block-boot :
        (a : ℕ)
        → 24576 ≤ a
        → spm.byte (write_flash_block spm cluster block buffer c) a ≡ spm.byte c a
    write_flash_block-boot a ha = elim (Bool-cases (in_file block start flash_sectors)) [
      | inl h ↦ block-byte a h ∙ ground (arith, inside h)
      | inr h ↦ ap (λ d. spm.byte d a) (block-outside h)
    ]
