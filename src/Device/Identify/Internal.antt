-- ===== src/Device/Identify/Internal.antt =====
-- The characters that `TMC_SetInternalSerial` writes are clean.
use usb_gpib.Base.{
  ℕ, zero, suc, true, ◌≡◌, refl, false, ◌==◌, ◌++◌, ◌<◌, ◌+◌, length, length-append, arith,
}
use usb_gpib.State.{Env}
use usb_gpib.Device.Serial.{address_text, signature_text, signature_nibble, hex_digit}
use usb_gpib.Device.Identify.Stripped.{is_ragged}
use usb_gpib.Device.Identify.Clean.{is_plain, all_plain, all_plain-append, IsClean}

module _ (e : Env) where
  digit_plain : (n : ℕ) → n < 16 → is_plain (hex_digit n) ≡ true
  digit_plain n h = ground arith

  signature_plain : (n k : ℕ) → all_plain (signature_text e n k) ≡ true
  signature_plain zero k = refl
  signature_plain (suc n) k =
      ground (arith, digit_plain (signature_nibble e k) (ground arith), signature_plain n (k + 1))

  length-signature_text : (n k : ℕ) → length (signature_text e n k) ≡ n
  length-signature_text zero k = refl
  length-signature_text (suc n) k = omega (arith, length-signature_text n (k + 1))

  address_plain : (addr : ℕ) → addr < 100 → all_plain (address_text addr) ≡ true
  address_plain addr h = ground arith

  pub internal-IsClean :
      (addr : ℕ) → addr < 100 → IsClean (address_text addr ++ signature_text e 20 0)
  internal-IsClean addr h = (
    all_plain-append (address_text addr) (signature_text e 20 0) (address_plain addr h)
        (signature_plain 20 0),
    omega (
      arith,
      length-append (address_text addr) (signature_text e 20 0),
      length-signature_text 20 0,
    ),
  )

  digit_end : (n : ℕ) → n < 16 → (hex_digit n == b'_') ≡ false
  digit_end n h = ground (arith, h)

  -- It ends in a digit.
  pub internal_end : (addr : ℕ) → is_ragged (address_text addr ++ signature_text e 20 0) ≡ false
  internal_end addr = digit_end (signature_nibble e 19) (ground arith)
