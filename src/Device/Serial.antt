-- ===== src/Device/Serial.antt =====
-- `TMC_SetInternalSerial` of TestAndMeasurement.c: a serial number from the signature of the chip.
use usb_gpib.Base.{
  ℕ, zero, suc, Bool, List, [], ◌∷◌, ◌++◌, ◌+◌, ◌-◌, ◌*◌, ◌/◌, ◌%◌, ◌==◌, leb, length, codes,
  if◌then◌else◌,
}
use usb_gpib.State.{World, Env}
use usb_gpib.Exec.{M, modify}
use usb_gpib.Parser.Commands.{copy_over}

-- Write the first characters, and the size that the header holds: two for each, and its own two bytes.
abbrev pub set_serial : List ℕ → World → World
set_serial cs w = record w {
  serial = record (w.serial) { size = length cs * 2 + 2; text = copy_over cs w.serial.text };
}

-- `(SerialByte >= 10) ? (('A' - 10) + SerialByte) : ('0' + SerialByte)`
abbrev pub hex_digit : ℕ → ℕ
hex_digit n = if leb 10 n then b'A' - 10 + n else b'0' + n

-- The characters of the address.
abbrev pub address_text : ℕ → List ℕ
address_text addr = codes "GPIB_" ++ ((b'0' + addr / 10) ∷ (b'0' + addr % 10) ∷ b'_' ∷ [])

module _ (e : Env) where
  -- The nibble of the character with this number: of the byte at 0x0E and on, the lower one first.
  abbrev pub signature_nibble : ℕ → ℕ
  signature_nibble k =
      let b = e.signature (0x0e + k / 2) in if k % 2 == 1 then b / 16 % 16 else b % 16

  -- The characters from number `k` on.
  abbrev pub signature_text : ℕ → ℕ → List ℕ
  signature_text zero k = []
  signature_text (suc n) k = hex_digit (signature_nibble k) ∷ signature_text n (k + 1)

  -- `TMC_SetInternalSerial`
  unfoldable pub set_internal_serial : Bool → M (Unit {0})
  set_internal_serial add_address = modify λ w.
      set_serial ((if add_address then address_text w.gpib_addr else []) ++ signature_text 20 0)
        (record w { serial = record (w.serial) { kind = 3 } })
