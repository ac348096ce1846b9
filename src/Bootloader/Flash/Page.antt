-- ===== src/Bootloader/Flash/Page.antt =====
-- One word of the loop that writes a block to the FLASH, and what holds between two words.
use usb_gpib.Base.{
  ℕ, Bool, true, ◌≡◌, ◌≢◌, refl, ◌∙◌, ap, ◌+◌, ◌-◌, ◌*◌, ◌/◌, ◌%◌, ◌≤◌, ◌<◌, ◌&&◌, ◌==◌, ltb, leb,
  bit_or, if◌then◌else◌, passes_below, passes_below_sound, ==_iff, Bool-cases, inl, inr, arith,
}
use usb_gpib.Bootloader.Fat.{Bytes}
use usb_gpib.Bootloader.Flash.{Spm, is_page_address_valid, erase_page, write_page}

-- The bytes of a word, for every pair of bytes.
abbrev word_splits : ℕ → ℕ → Bool
word_splits high low = bit_or (high * 256) low == high * 256 + low

abbrev splits : ℕ → Bool
splits high = passes_below 256 (word_splits high)

splits_table : passes_below 256 splits ≡ true
unfolding passes_below
splits_table = refl

pub bit_or-word :
    (high low : ℕ) → high < 256 → low < 256 → bit_or (high * 256) low ≡ high * 256 + low
bit_or-word high low hh hl = (==_iff _ _).0 (
    passes_below_sound 256 (word_splits high) low
      (passes_below_sound 256 splits high splits_table hh) hl)

valid_page : (p : ℕ) → p < 0x7000 → p % 128 ≡ 0 → is_page_address_valid p ≡ true
valid_page p below aligned = ground arith

module _ (spm : Spm) (base : ℕ) (buffer : Bytes) (c0 : spm.Chip) where
  -- The FLASH when the whole block is written.
  abbrev pub wanted : Bytes
  wanted a = if leb base a && ltb a (base + 512) then buffer (a - base) else spm.byte c0 a

  -- The pages before that of `addr` are written, and nothing behind the block is changed.
  pub record IsBehind (addr : ℕ) (c : spm.Chip) : Type 0 where
    pub below : (a : ℕ) → a < addr - addr % 128 → spm.byte c a ≡ wanted a
    pub above : (a : ℕ) → base + 512 ≤ a → spm.byte c a ≡ spm.byte c0 a

  -- The page of `addr` is erased, and its first bytes, so many as `r`, are in the page buffer.
  pub record IsFilled (addr r : ℕ) (c : spm.Chip) : Type 0 where
    pub behind : IsBehind addr c
    pub erased : (a : ℕ) → a / 128 ≡ addr / 128 → spm.byte c a ≡ 0xff
    pub filled : (o : ℕ) → o < r → spm.held c o ≡ buffer (addr - addr % 128 + o - base)
    pub clear : (o : ℕ) → r ≤ o → spm.held c o ≡ 0xff

  -- Before the word at `addr`.
  pub record IsBetween (addr : ℕ) (c : spm.Chip) : Type 0 where
    pub behind : IsBehind addr c
    pub started : addr % 128 ≢ 0 → IsFilled addr (addr % 128) c

  module _ (addr : ℕ) (from : base ≤ addr) (to : addr + 2 ≤ base + 512) (aligned : base % 512 ≡ 0)
      (even : addr % 2 ≡ 0) (room : base + 512 ≤ 24576) where
    -- The page is erased before its first word.
    pub begin :
        (c : spm.Chip)
        → IsBetween addr c
        → IsFilled addr (addr % 128) (if addr % 128 == 0 then erase_page spm addr c else c)
    begin c h = elim (Bool-cases (addr % 128 == 0)) [
      | inl first ↦
          let below_boot : ltb addr 0x7000 ≡ true = ground arith in
          rw (first, below_boot)
            (record {
              behind = record {
                below = λ a ha. ground (arith, spm.byte-erase addr a c, h.behind.below a);
                above = λ a ha. ground (arith, spm.byte-erase addr a c, h.behind.above a);
              };
              erased = λ a ha. ground (arith, spm.byte-erase addr a c);
              filled = λ o ho. absurd (ground arith);
              clear = λ o ho. spm.held-erase addr o c;
            })
      | inr later ↦ rw later (h.started (ground arith))
    ]

    module _ (bytes : (k : ℕ) → buffer k < 256) where
      abbrev word : ℕ
      word = bit_or (buffer (addr - base + 1) * 256) (buffer (addr - base))

      word_value : word ≡ buffer (addr - base + 1) * 256 + buffer (addr - base)
      word_value = bit_or-word (buffer (addr - base + 1)) (buffer (addr - base)) (bytes _) (bytes _)

      held_byte :
          (c : spm.Chip)
          → IsFilled addr (addr % 128) c
          → (o : ℕ) → o < addr % 128 + 2
          → (if o == addr % 128
              then word % 256
              else if o == addr % 128 + 1
              then word / 256
              else spm.held c o)
            ≡ buffer (addr - addr % 128 + o - base)
      held_byte c h o ho = elim (Bool-cases (o == addr % 128)) [
        | inl low ↦
            let byte : word % 256 ≡ buffer (addr - base) =
              omega (arith, word_value, bytes (addr - base), bytes (addr - base + 1)) in
            let at : o ≡ addr % 128 = (==_iff _ _).0 low in
            let place : buffer (addr - base) ≡ buffer (addr - addr % 128 + o - base) =
              ap buffer (omega arith) in
            rw low (byte ∙ place)
        | inr other ↦ elim (Bool-cases (o == addr % 128 + 1)) [
          | inl high ↦
              let byte : word / 256 ≡ buffer (addr - base + 1) =
                omega (arith, word_value, bytes (addr - base), bytes (addr - base + 1)) in
              let at : o ≡ addr % 128 + 1 = (==_iff _ _).0 high in
              let place : buffer (addr - base + 1) ≡ buffer (addr - addr % 128 + o - base) =
                ap buffer (omega arith) in
              rw (other, high) (byte ∙ place)
          | inr before ↦ rw (other, before) (h.filled o (ground arith))
        ]
      ]

      -- The word goes into the page buffer.
      pub middle :
          (c : spm.Chip)
          → IsFilled addr (addr % 128) c
          → IsFilled addr (addr % 128 + 2) (spm.fill addr word c)
      middle c h =
          let put = λ (o : ℕ).
            spm.held-fill addr word o c (h.clear (addr % 128) (omega arith))
              (h.clear (addr % 128 + 1) (omega arith)) in
          record {
            behind = record {
              below = λ a ha. spm.byte-fill addr word a c ∙ h.behind.below a ha;
              above = λ a ha. spm.byte-fill addr word a c ∙ h.behind.above a ha;
            };
            erased = λ a ha. spm.byte-fill addr word a c ∙ h.erased a ha;
            filled = λ o ho. put o ∙ held_byte c h o ho;
            clear = λ o ho. put o ∙ ground (arith, h.clear o);
          }

      -- What the FLASH holds then.
      written :
          (p : ℕ) (c : spm.Chip)
          → IsFilled addr (addr % 128 + 2) c
          → p ≡ addr - addr % 128
          → ((addr + 2) % 65536 % 128 == 0) ≡ true
          → (a : ℕ) → a < addr + 2 - (addr + 2) % 128
          → spm.byte (spm.write p c) a ≡ wanted a
      written p c h at last a ha = elim (Bool-cases (a / 128 == p / 128)) [
        | inl same ↦
            let page : a / 128 ≡ p / 128 = (==_iff _ _).0 same in
            let place : buffer (addr - addr % 128 + a % 128 - base) ≡ buffer (a - base) =
              ap buffer (omega arith) in
            let here : buffer (a - base) ≡ wanted a = ground arith in
            spm.byte-write_page p a c page (h.erased a (omega arith))
            ∙ h.filled (a % 128) (ground arith)
            ∙ place
            ∙ here
        | inr other ↦
            spm.byte-write_other p a c (λ e. cc ((==_iff (a / 128) (p / 128)).1 e))
            ∙ h.behind.below a (ground arith)
      ]

      -- The page is written after its last word.
      pub finish :
          (c : spm.Chip)
          → IsFilled addr (addr % 128 + 2) c
          → IsBetween (addr + 2) (
              if (addr + 2) % 65536 % 128 == 0
              then write_page spm (((addr + 2) % 65536 + 65536 - 128) % 65536) c
              else c)
      finish c h = elim (Bool-cases ((addr + 2) % 65536 % 128 == 0)) [
        | inl last ↦
            let p = ((addr + 2) % 65536 + 65536 - 128) % 65536 in
            let at : p ≡ addr - addr % 128 = ground arith in
            let below_boot : ltb p 0x7000 ≡ true = ground arith in
            let first : (p % 128 == 0) ≡ true = ground arith in
            rw (last, below_boot, first)
              (record {
                behind = record {
                  below = written p c h at last;
                  above = λ a ha.
                      spm.byte-write_other p a c (λ e. absurd (omega arith)) ∙ h.behind.above a ha;
                };
                started = λ ne. absurd (ground arith);
              })
        | inr more ↦ rw more (record {
          behind = record {
            below = λ a ha. h.behind.below a (ground arith);
            above = h.behind.above;
          };
          started = λ ne. record {
            behind = record {
              below = λ a ha. h.behind.below a (ground arith);
              above = h.behind.above;
            };
            erased = λ a ha. h.erased a (ground arith);
            filled = λ o ho. h.filled o (ground arith) ∙ ap buffer (ground arith);
            clear = λ o ho. h.clear o (ground arith);
          };
        })
      ]
