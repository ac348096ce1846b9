-- ===== src/Parser/Commands.antt =====
-- The command functions of SW/TestAndMeasurement/miniparser.c and the functions of
-- TestAndMeasurement.c that they call.
use usb_gpib.Base.{
  ℕ, List, [], ◌∷◌, ◌++◌, none, some, ltb, ◌==◌, if◌then◌else◌, length, drop, get_elem?, codes,
}
use usb_gpib.State.{World}
use usb_gpib.Exec.{M, fault, halted, modify, skip, ◌>>◌}

-- The EEPROM as a function of the address; `eeprom_write_byte` changes one cell.
abbrev pub eeprom_write_byte : ℕ → ℕ → (ℕ → ℕ) → ℕ → ℕ
eeprom_write_byte addr value rom a = if addr == a then value else rom a

-- `eeprom_update_if_changed`: an equal value is not written again.
abbrev pub eeprom_after : ℕ → ℕ → (ℕ → ℕ) → ℕ → ℕ
eeprom_after addr value rom = if rom addr == value then rom else eeprom_write_byte addr value rom

unfoldable pub eeprom_update_if_changed : ℕ → ℕ → M (Unit {0})
eeprom_update_if_changed addr value =
    modify λ w. record w { eeprom = eeprom_after addr value w.eeprom }

-- sizeof(internal_response_buffer)
abbrev pub response_size : ℕ
response_size = 8

-- `memcpy(dst, src, len)` at the start of `dst`.
abbrev pub copy_over : List ℕ → List ℕ → List ℕ
copy_over src dst = src ++ drop (length src) dst

-- `set_internal_response(pdat, len)`, for `pdat` the `len` bytes of the text.
unfoldable pub set_internal_response : List ℕ → M (Unit {0})
set_internal_response text = modify λ w. record w {
  response =
      if ltb (length text) response_size
      then record { buffer = copy_over text w.response.buffer; len = length text; rpos = 0 }
      else w.response;
}

abbrev pub set_terminator : ℕ → World → World
set_terminator t w = record w { gpib = record (w.gpib) { terminator = t } }

-- `gpib_set_readtermination`
unfoldable pub gpib_set_readtermination : ℕ → M (Unit {0})
gpib_set_readtermination t = modify (set_terminator t)

-- The texts of the queries, chosen by the byte that is read.
abbrev pub autoid_text : ℕ → List ℕ
autoid_text v =
    if v == 4
    then codes "slowest"
    else if v == 3
    then codes "slower"
    else if v == 2
    then codes "slow"
    else if v == 1
    then codes "off"
    else codes "on"

abbrev pub term_text : ℕ → List ℕ
term_text t = if t == 13 then codes "cr" else if t == 10 then codes "lf" else codes "eoi"

abbrev pub string_text : ℕ → List ℕ
string_text v = if v == 1 then codes "short" else codes "normal"

unfoldable pub cmd_autoid : ℕ → M (Unit {0})
cmd_autoid mode = eeprom_update_if_changed 104 mode

unfoldable pub cmd_autoid_query : M (Unit {0})
cmd_autoid_query w = set_internal_response (autoid_text (w.eeprom 104)) w

unfoldable pub cmd_term_query : M (Unit {0})
cmd_term_query w = set_internal_response (term_text w.gpib.terminator) w

unfoldable pub cmd_term_store : M (Unit {0})
cmd_term_store w = eeprom_update_if_changed 105 w.gpib.terminator w

unfoldable pub cmd_ver_query : M (Unit {0})
cmd_ver_query = set_internal_response (codes "V2.4")

-- `cmd_0100`, `cmd_0101` and `cmd_0102`: a stored termination that is in force at once.
unfoldable pub cmd_store_term : ℕ → M (Unit {0})
cmd_store_term t = do eeprom_update_if_changed 105 t; gpib_set_readtermination t

-- `Jump_To_Bootloader` does not return.
unfoldable pub jump_to_bootloader : M (Unit {0})
jump_to_bootloader w = halted

unfoldable pub cmd_string : ℕ → M (Unit {0})
cmd_string v = eeprom_update_if_changed 106 v

unfoldable pub cmd_string_query : M (Unit {0})
cmd_string_query w = set_internal_response (string_text (w.eeprom 106)) w

-- `cmd_addr` has an empty body.
unfoldable pub cmd_addr : M (Unit {0})
cmd_addr = skip

-- `cmd_list`
unfoldable pub cmd_list : List (M (Unit {0}))
unfolding eeprom_update_if_changed set_internal_response cmd_autoid cmd_autoid_query
    gpib_set_readtermination cmd_term_query cmd_term_store cmd_ver_query cmd_store_term cmd_addr
    jump_to_bootloader cmd_string cmd_string_query
cmd_list =
    cmd_autoid 0
    ∷ cmd_autoid 1
    ∷ cmd_autoid 2
    ∷ cmd_autoid 3
    ∷ cmd_autoid 4
    ∷ cmd_autoid_query
    ∷ gpib_set_readtermination 13
    ∷ gpib_set_readtermination 10
    ∷ gpib_set_readtermination 0
    ∷ cmd_term_query
    ∷ cmd_term_store
    ∷ cmd_ver_query
    ∷ cmd_autoid 0
    ∷ cmd_autoid 1
    ∷ cmd_store_term 0
    ∷ cmd_store_term 10
    ∷ cmd_store_term 13
    ∷ cmd_addr
    ∷ jump_to_bootloader
    ∷ cmd_string 1
    ∷ cmd_string 0
    ∷ cmd_string_query
    ∷ []

-- `cmd_list[k]()`; an index past the table is a read out of bounds.
unfoldable pub dispatch : ℕ → M (Unit {0})
unfolding cmd_list
dispatch k w = elim (get_elem? cmd_list k) [ none ↦ fault | some cmd ↦ cmd w ]
