-- ===== src/Startup/Remembered.antt =====
-- The serial number in the EEPROM: `main` stores it at one start and takes it at a later one.
use usb_gpib.Base.{
  ℕ, zero, suc, true, false, ◌≡◌, refl, ◌∙◌, ap, subst, List, [], ◌∷◌, ◌+◌, ◌-◌, ◌*◌, ◌/◌, ◌%◌, ◌<◌,
  ◌&&◌, ◌==◌, ltb, leb, length, get_or, if◌then◌else◌, ==_iff, Bool-cases, inl, inr, arith,
}
use usb_gpib.State.{World, Serial}
use usb_gpib.Exec.{Returns, Returns-weaken}
use usb_gpib.Parser.Commands.{eeprom_update_if_changed, eeprom_after}
use usb_gpib.Parser.Settings.{update_self}
use usb_gpib.Startup.{
  char_bytes, serial_bytes, read_chars, serial_from, serial_size, store_serial, load_serial,
  remember,
}

-- Characters of 16 bits.
abbrev pub AreChars : List ℕ → Type 0
AreChars [] = Unit {0}
AreChars (c ∷ cs) = (c < 65536) × AreChars cs

-- The memory of a serial number: fifty characters of 16 bits.
pub record IsSerial (s : Serial) : Type 0 where
  pub room : length s.text ≡ 50
  pub chars : AreChars s.text

-- The cells from `i + 1` on hold so many bytes of the serial number, from byte `i` on; nothing else
-- has changed.
record IsStored (n i : ℕ) (w u : World) : Type 0 where
  cells :
      (a : ℕ)
      → u.eeprom a ≡ (
          if ltb i a && leb a (i + n) then get_or (serial_bytes w.serial) (a - 1) 0 else w.eeprom a)
  serial : u.serial ≡ w.serial
  addr : u.gpib_addr ≡ w.gpib_addr

-- One more byte is stored.
cells_step :
    (n i a : ℕ) (f rom : ℕ → ℕ)
    → (if ltb (i + 1) a && leb a (i + 1 + n) then f (a - 1) else eeprom_after (1 + i) (f i) rom a)
      ≡ (if ltb i a && leb a (i + suc n) then f (a - 1) else rom a)
cells_step n i a f rom = elim (Bool-cases (a == 1 + i)) [
  | inl eq ↦
      let here : a ≡ 1 + i = (==_iff a (1 + i)).0 eq in
      let byte : f (a - 1) ≡ f i = ap f (omega arith) in ground arith
  | inr ne ↦ ground arith
]

store-IsStored : (n i : ℕ) (w : World) → Returns (λ _ u. IsStored n i w u) (store_serial n i w)
unfolding store_serial
store-IsStored zero i w = record { cells = λ a. ground arith; serial = refl; addr = refl }
store-IsStored (suc n) i w =
    let b = get_or (serial_bytes w.serial) i 0 in
    let w' = record w { eeprom = eeprom_after (1 + i) b w.eeprom } in
    Returns-weaken (λ _ u. IsStored n (i + 1) w' u) (λ _ u. IsStored (suc n) i w u)
      (store_serial n (i + 1) w') (store-IsStored n (i + 1) w')
      λ _ u h. record {
        cells =
            λ a. h.cells a ∙ cells_step n i a (λ k. get_or (serial_bytes w.serial) k 0) w.eeprom;
        serial = h.serial;
        addr = h.addr;
      }

-- The characters that were stored are read again.
read-char_bytes :
    (byte : ℕ → ℕ) (cs : List ℕ) (i : ℕ)
    → AreChars cs
    → ((k : ℕ) → k < 2 * length cs → byte (i + k) ≡ get_or (char_bytes cs) k 0)
    → read_chars byte (length cs) i ≡ cs
read-char_bytes byte [] i small same = refl
read-char_bytes byte (c ∷ cs) i small same =
    let low : byte i ≡ c % 256 = ap byte (omega arith) ∙ same 0 (omega arith) in
    let high : byte (i + 1) ≡ c / 256 % 256 = same 1 (omega arith) in
    let rest : read_chars byte (length cs) (i + 2) ≡ cs =
      read-char_bytes byte cs (i + 2) small.1
        λ k below. ap byte (omega arith) ∙ same (suc (suc k)) (omega arith) in
    let here : byte i + 256 * byte (i + 1) ≡ c = omega (arith, small.0) in rw (here, rest)

serial-serial_bytes :
    (byte : ℕ → ℕ) (s : Serial)
    → IsSerial s
    → ((k : ℕ) → k < 102 → byte k ≡ get_or (serial_bytes s) k 0)
    → serial_from byte ≡ s
serial-serial_bytes byte s valid same =
    let text : read_chars byte 50 2 ≡ s.text =
      subst (λ n. read_chars byte n 2 ≡ s.text) valid.room
        (read-char_bytes byte s.text 2 valid.chars
          λ k below. ap byte (omega arith) ∙ same (suc (suc k)) (omega (arith, valid.room))) in
    rw (same 0 (omega arith), same 1 (omega arith), text)

one_less : (k : ℕ) → 1 + k - 1 ≡ k
one_less k = omega arith

-- The EEPROM of `u` gives a later start in state `v`, at the address of `w`, the serial number of `w`;
-- the three settings are those of `w`.
abbrev pub Remembers : World → World → World → Type 0
Remembers v w u =
    (Returns (λ _ u'. u'.serial ≡ w.serial)
      (remember (u.eeprom 0) false (record v { eeprom = u.eeprom; gpib_addr = w.gpib_addr })))
    × (u.eeprom 104 ≡ w.eeprom 104)
    × (u.eeprom 105 ≡ w.eeprom 105)
    × (u.eeprom 106 ≡ w.eeprom 106)

-- A serial number that was received from the device at one start is taken again at a later start,
-- whatever the state is then, where the EEPROM is the same and a device at the same address does not
-- answer; and storing it leaves the three settings in the EEPROM alone.
pub remember-Remembers :
    (prevaddr : ℕ) (w v : World)
    → IsSerial w.serial
    → Returns (λ _ u. Remembers v w u) (remember prevaddr true w)
unfolding remember load_serial eeprom_update_if_changed
remember-Remembers prevaddr w v valid =
    let w' = record w { eeprom = eeprom_after 0 w.gpib_addr w.eeprom } in
    Returns-weaken (λ _ u. IsStored serial_size 0 w' u) (λ _ u. Remembers v w u)
      (store_serial serial_size 0 w') (store-IsStored serial_size 0 w')
      λ _ u h.
        let same : (u.eeprom 0 == w.gpib_addr) ≡ true =
          (==_iff (u.eeprom 0) w.gpib_addr).1 (h.cells 0 ∙ update_self 0 w.gpib_addr w.eeprom) in
        (
          rw same (
              serial-serial_bytes (λ k. u.eeprom (1 + k)) w.serial valid
                λ k below. ground (
                  arith,
                  h.cells (1 + k),
                  ap (λ j. get_or (serial_bytes w.serial) j 0) (one_less k),
                )),
          ground (arith, h.cells 104),
          ground (arith, h.cells 105),
          ground (arith, h.cells 106),
        )
