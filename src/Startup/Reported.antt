-- ===== src/Startup/Reported.antt =====
-- The serial number that the host is given: the bytes of `tmc_serial_string` that its descriptor covers.
use usb_gpib.Base.{
  ℕ, zero, suc, Bool, true, false, ◌≡◌, refl, ◌∙◌, sym, ap, subst, List, [], ◌∷◌, ◌++◌, ◌+◌, ◌-◌,
  ◌*◌, ◌/◌, ◌%◌, ◌<◌, codes, get_or, ◌≤◌, ◌==◌, length, take-append, take, drop, ltb, Bool-cases,
  inl, inr, if◌then◌else◌, arith,
}
use usb_gpib.State.{World, Env}
use usb_gpib.Exec.{bind, Returns}
use usb_gpib.Device.Serial.{
  set_serial, set_internal_serial, address_text, signature_text, hex_digit,
}
use usb_gpib.Device.Descriptor.{get_descriptor, object_size, tmc_serial_string}
use usb_gpib.Startup.{shorten_serial, serial_length}

-- GET_DESCRIPTOR for the string with number 3.
abbrev pub serial_request : ℕ
serial_request = 0x0303

-- The characters that the host is given.
abbrev pub reported : World → List ℕ
reported w = take ((get_descriptor serial_request w.serial).size / 2 - 1) w.serial.text

length-signature_text : (e : Env) (n k : ℕ) → length (signature_text e n k) ≡ n
length-signature_text e zero k = refl
length-signature_text e (suc n) k = omega (arith, length-signature_text e n (k + 1))

-- The text that `TMC_SetInternalSerial` writes.
abbrev written_text : Env → Bool → ℕ → List ℕ
written_text e add_address addr =
    (if add_address then address_text addr else []) ++ signature_text e 20 0

-- What is sent is at most fifty characters.
length-written_text :
    (e : Env) (add_address : Bool) (addr : ℕ) → length (written_text e add_address addr) ≤ 50
length-written_text e true addr = omega (arith, length-signature_text e 20 0)
length-written_text e false addr = omega (arith, length-signature_text e 20 0)

abbrev written : List ℕ → World → World
written cs w = set_serial cs (record w { serial = record (w.serial) { kind = 3 } })

take-take : (n m : ℕ) (xs : List ℕ) → n ≤ m → take n (take m xs) ≡ take n xs
take-take zero m xs h = refl
take-take (suc n) zero xs h = absurd (omega arith)
take-take (suc n) (suc m) [] h = refl
take-take (suc n) (suc m) (x ∷ xs) h = rw (take-take n m xs (omega arith))

take-longer : (n m : ℕ) (xs : List ℕ) → n ≤ m → take m (take n xs) ≡ take n xs
take-longer zero zero xs h = refl
take-longer zero (suc m) xs h = refl
take-longer (suc n) zero xs h = absurd (omega arith)
take-longer (suc n) (suc m) [] h = refl
take-longer (suc n) (suc m) (x ∷ xs) h = rw (take-longer n m xs (omega arith))

-- The first characters, where the EEPROM asks for it.
abbrev pub shortened : (ℕ → ℕ) → List ℕ → List ℕ
shortened rom cs = if rom 106 == 1 then take 20 cs else cs

-- The host is given this text, and no byte from outside `tmc_serial_string`.
pub record IsReported (cs : List ℕ) (w : World) : Type 0 where
  pub text : reported w ≡ cs
  pub within : (get_descriptor serial_request w.serial).size ≤ object_size tmc_serial_string

reported_size : (n : ℕ) (w : World) → w.serial.size ≡ n * 2 + 2 → reported w ≡ take n w.serial.text
unfolding get_descriptor
reported_size n w size = ap (λ (k : ℕ). take k w.serial.text) (omega arith)

shorten-IsReported :
    (n : ℕ) (w : World)
    → w.serial.size ≡ n * 2 + 2
    → n ≤ 50
    → Returns (λ _ u. IsReported (shortened w.eeprom (take n w.serial.text)) u) (shorten_serial w)
unfolding shorten_serial get_descriptor
shorten-IsReported n w size small = elim (Bool-cases (w.eeprom 106 == 1)) [
  | inl asked ↦ elim (Bool-cases (ltb 20 (serial_length w.serial.size))) [
    | inl long ↦
        rw (asked, long)
          (record {
            text =
                reported_size 20 (record w { serial = record (w.serial) { size = 42 } })
                  (omega arith)
                ∙ sym (take-take 20 n w.serial.text (ground arith));
            within = omega arith;
          })
    | inr short ↦
        rw (asked, short)
          (record {
            text = reported_size n w size ∙ sym (take-longer n 20 w.serial.text (ground arith));
            within = omega arith;
          })
  ]
  | inr kept ↦ rw kept (record { text = reported_size n w size; within = omega arith })
]

-- A digit, in the bases up to sixteen.
abbrev pub digit : ℕ → ℕ
digit n = get_or (codes "0123456789ABCDEF") n 0

-- Bytes in hexadecimal, the lower digit of each first.
abbrev pub hexadecimal : List ℕ → List ℕ
hexadecimal [] = []
hexadecimal (b ∷ bs) = digit (b % 16) ∷ digit (b / 16 % 16) ∷ hexadecimal bs

-- The ten bytes of the signature row from 0x0E on.
abbrev pub signature_bytes : Env → List ℕ
signature_bytes e =
    e.signature 14
    ∷ e.signature 15
    ∷ e.signature 16
    ∷ e.signature 17
    ∷ e.signature 18
    ∷ e.signature 19
    ∷ e.signature 20
    ∷ e.signature 21
    ∷ e.signature 22
    ∷ e.signature 23
    ∷ []

-- The serial number of the adapter: `GPIB_`, the address in two digits and `_`, where the address is asked
-- for, and the signature.
abbrev pub internal_text : Env → Bool → ℕ → List ℕ
internal_text e add_address addr =
    (if add_address
      then codes "GPIB_" ++ (digit (addr / 10) ∷ digit (addr % 10) ∷ codes "_")
      else [])
    ++ hexadecimal (signature_bytes e)

hex_digit-digit : (n : ℕ) → n < 16 → hex_digit n ≡ digit n
hex_digit-digit n h = ground arith

-- The characters of one byte.
byte_text :
    (b : ℕ) (cs ds : List ℕ)
    → cs ≡ ds
    → hex_digit (b % 16) ∷ hex_digit (b / 16 % 16) ∷ cs ≡ digit (b % 16) ∷ digit (b / 16 % 16) ∷ ds
byte_text b cs ds h =
    rw (hex_digit-digit (b % 16) (omega arith), hex_digit-digit (b / 16 % 16) (omega arith), h) refl

signature_hexadecimal : (e : Env) → signature_text e 20 0 ≡ hexadecimal (signature_bytes e)
signature_hexadecimal e = byte_text _ _ _ (
    byte_text _ _ _ (
      byte_text _ _ _ (
        byte_text _ _ _ (
          byte_text _ _ _ (
            byte_text _ _ _
              (byte_text _ _ _ (byte_text _ _ _ (byte_text _ _ _ (byte_text _ _ _ refl)))))))))

address_digits :
    (addr : ℕ)
    → addr < 100
    → address_text addr ≡ codes "GPIB_" ++ (digit (addr / 10) ∷ digit (addr % 10) ∷ codes "_")
address_digits addr h =
    rw
      (
        sym (hex_digit-digit (addr / 10) (omega (arith, h))),
        sym (hex_digit-digit (addr % 10) (omega arith)),
      )
      (ground (arith, h))

written_internal :
    (e : Env) (add_address : Bool) (addr : ℕ)
    → addr < 100
    → written_text e add_address addr ≡ internal_text e add_address addr
written_internal e true addr h =
    ap (λ t. t ++ signature_text e 20 0) (address_digits addr h)
    ∙ ap (λ t. (codes "GPIB_" ++ (digit (addr / 10) ∷ digit (addr % 10) ∷ codes "_")) ++ t)
        (signature_hexadecimal e)
written_internal e false addr h = signature_hexadecimal e

-- Where `TMC_SetInternalSerial` is followed by the shortening that the EEPROM may ask for, and the address
-- has at most two digits: the host is given `GPIB_`, the two digits of the address and `_`, if the address
-- is asked for, and twenty hexadecimal digits, those of ten bytes of the chip's signature row, the lower
-- one of each byte first; or the first twenty characters of that; and no byte from outside
-- `tmc_serial_string`.
pub internal_serial-IsReported :
    (e : Env) (add_address : Bool) (w : World)
    → w.gpib_addr < 100
    → Returns
        (λ _ u. IsReported (shortened w.eeprom (internal_text e add_address w.gpib_addr)) u)
        (bind (set_internal_serial e add_address w) (λ _. shorten_serial))
unfolding set_internal_serial
internal_serial-IsReported e add_address w two_digits =
    let cs = written_text e add_address w.gpib_addr in
    subst
      (λ ds. Returns (λ _ u. IsReported (shortened w.eeprom ds) u) (shorten_serial (written cs w)))
      (take-append cs (drop (length cs) w.serial.text)
        ∙ written_internal e add_address w.gpib_addr two_digits)
      (shorten-IsReported (length cs) (written cs w) refl
        (length-written_text e add_address w.gpib_addr))
