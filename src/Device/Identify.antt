-- ===== src/Device/Identify.antt =====
-- `identifyGpibDevice` of TestAndMeasurement.c: the serial number from the answer to `*IDN?` or `ID?`.
pub mod Clean
pub mod Stripped
pub mod Allowed
pub mod Kept
pub mod Internal
pub mod Named
use usb_gpib.Base.{
  ℕ, zero, suc, Bool, true, false, not, List, [], ◌∷◌, ◌++◌, ◌*◌, ◌+◌, ◌-◌, ◌&&◌, ◌||◌, ◌==◌, ltb,
  leb, length, take, get_or, codes, if◌then◌else◌,
}
use usb_gpib.State.{World, Env, Serial}
use usb_gpib.Exec.{M, waiting, pure, modify, gets, skip, when, ◌>>=◌, ◌>>◌}
use usb_gpib.Gpib.Lines.{gpib_ren}
use usb_gpib.Gpib.Timeouts.{timeout_start, is_timedout}
use usb_gpib.Gpib.Commands.{
  gpib_make_listener, gpib_make_talker, gpib_untalk_unlisten, gpib_readdat, gpib_writedat,
}
use usb_gpib.Device.Serial.{set_serial, set_internal_serial}

-- TMC_MAX_SERIAL_STRING_LENGTH
abbrev pub max_serial : ℕ
max_serial = 50

-- The characters that an underscore replaces in the answer to `ID?`; in the one to `*IDN?` also the
-- underscore itself.
abbrev pub is_special : ℕ → Bool
is_special c =
    c == b'"'
    || c == b'*'
    || c == b'/'
    || c == 92
    || c == b':'
    || c == b'?'
    || c == b' '
    || c == b','
    || c == b'&'

abbrev pub is_printable : ℕ → Bool
is_printable c = leb 32 c && leb c 126

abbrev pub replace_if : Bool → ℕ → ℕ
replace_if special c = if special then b'_' else c

-- What is stored of a character of the answer to `*IDN?`, after the previous character.
abbrev pub idn_store : ℕ → ℕ → List ℕ → List ℕ
idn_store prev c cs =
    let special = is_special c || c == b'_' in
    let c' = replace_if special c in
    if is_printable c' && not (special && prev == b'_') then cs ++ (c' ∷ []) else cs

abbrev pub idn_prev : ℕ → ℕ
idn_prev c = replace_if (is_special c || c == b'_') c

-- What is stored of a character of the answer to `ID?`.
abbrev pub id_store : ℕ → List ℕ → List ℕ
id_store c cs =
    let c' = replace_if (is_special c) c in if is_printable c' then cs ++ (c' ∷ []) else cs

-- `tmc_serial_string.UnicodeString[len - 1]`, with the characters that are stored. With none, the array is
-- read at -1, where the two bytes of the header lie.
abbrev pub last_read : Serial → List ℕ → ℕ
last_read s [] = s.size + 256 * s.kind
last_read s (c ∷ cs) = get_or (c ∷ cs) (length cs) 0

-- `while ((tmc_serial_string.UnicodeString[len-1] == '_') && (len > 1)) len--;`, for at most so many rounds.
unfoldable pub strip_rounds : Serial → ℕ → List ℕ → List ℕ
strip_rounds s zero cs = cs
strip_rounds s (suc n) cs =
    let rest = strip_rounds s n (take (length cs - 1) cs) in
    if last_read s cs == b'_' && ltb 1 (length cs) then rest else cs

-- A round for each character and one more are enough.
unfoldable pub strip : Serial → List ℕ → List ℕ
unfolding strip_rounds
strip s cs = strip_rounds s (length cs + 1) cs

-- `HP` and a digit
abbrev pub is_hp : List ℕ → Bool
is_hp t =
    get_or t 0 0 == b'H'
    && get_or t 1 0 == b'P'
    && leb b'0' (get_or t 2 0)
    && leb (get_or t 2 0) b'9'

module _ (e : Env) where
  -- `if (timeout_val != 0) m;`
  abbrev pub while_time : M (Unit {0}) → M (Unit {0})
  while_time m = do left ← gets (λ w. w.timeouts.main); when (not (left == 0)) m

  -- One query, with EOI on its last character.
  unfoldable pub send_query : List ℕ → M (Unit {0})
  send_query [] = skip
  send_query (c ∷ cs) = do
    while_time (gpib_writedat e c (length cs == 0) is_timedout >> skip)
    send_query cs

  -- The device is addressed, and the query is sent.
  unfoldable pub ask : List ℕ → M (Unit {0})
  unfolding timeout_start send_query
  ask query = do
    timeout_start 100000
    addr ← gets (λ w. w.gpib_addr)
    t ← gpib_make_listener e addr is_timedout
    send_query query
    t' ← gpib_untalk_unlisten e is_timedout
    skip

  -- The loop that reads the answer to `*IDN?`, for at most so many rounds: the previous character,
  -- the characters stored so far, and `hascomma`.
  unfoldable pub idn_rounds : ℕ → ℕ → List ℕ → Bool → M (List ℕ × Bool)
  idn_rounds zero prev cs comma = λ w. waiting
  idn_rounds (suc n) prev cs comma = do
    (c, eoi, timedout) ← gpib_readdat e is_timedout
    elim (ltb (length (idn_store prev c cs)) max_serial && (not timedout && not eoi)) [
      | true ↦ idn_rounds n (idn_prev c) (idn_store prev c cs) (comma || c == b',')
      | false ↦ pure (idn_store prev c cs, comma || c == b',')
    ]

  -- The loop that reads the answer to `ID?`.
  unfoldable pub id_rounds : ℕ → List ℕ → Bool → M (List ℕ × Bool)
  id_rounds zero cs comma = λ w. waiting
  id_rounds (suc n) cs comma = do
    (c, eoi, timedout) ← gpib_readdat e is_timedout
    elim (ltb (length (id_store c cs)) max_serial
        && (not timedout && not eoi && not (c == 13) && not (c == 10))) [
          | true ↦ id_rounds n (id_store c cs) (comma || c == b',')
          | false ↦ pure (id_store c cs, comma || c == b',')
        ]

  -- The device talks, its answer is read and stored; it returns the length and `hascomma`.
  abbrev pub hear : M (List ℕ × Bool) → M (ℕ × Bool)
  hear rounds = do
    timeout_start 100000
    addr ← gets (λ w. w.gpib_addr)
    t ← gpib_make_talker e addr is_timedout
    (cs, comma) ← rounds
    s ← gets (λ w. w.serial)
    modify (set_serial cs)
    modify (λ w. record w { serial = record (w.serial) { size = length (strip s cs) * 2 + 2 } })
    t' ← gpib_untalk_unlisten e is_timedout
    pure (length (strip s cs), comma)

  -- The second query, after no answer to the first one.
  unfoldable pub second_query : ℕ → Bool → M (ℕ × Bool)
  unfolding ask id_rounds timeout_start
  second_query len comma = do
    ask (codes "ID?\n")
    left ← gets (λ w. w.timeouts.main)
    if left == 0 then pure (len, comma) else hear (id_rounds e.polls [] comma)

  -- The serial number is built from the address; no string was received.
  unfoldable pub fall_back : M Bool
  unfolding set_internal_serial
  fall_back = do set_internal_serial e true; pure false

  -- The answers, after the first query was sent.
  unfoldable pub take_answers : M Bool
  unfolding second_query idn_rounds fall_back timeout_start
  take_answers = do
    (len, comma) ← hear (idn_rounds e.polls 0 [] false)
    left ← gets (λ w. w.timeouts.main)
    (len', comma') ← (if left == 0 || len == 0 then second_query len comma else pure (len, comma))
    text ← gets (λ w. w.serial.text)
    left' ← gets (λ w. w.timeouts.main)
    if left' == 0 || len' == 0 || not (comma' || is_hp text) then fall_back else pure true

  -- `identifyGpibDevice`
  unfoldable pub identify_gpib_device : M Bool
  unfolding ask take_answers fall_back gpib_ren
  identify_gpib_device = do
    modify (λ w. record w { serial = record (w.serial) { size = 0 } })
    ask (codes "*IDN?\n")
    left ← gets (λ w. w.timeouts.main)
    received ← (if left == 0 then fall_back else take_answers)
    gpib_ren false
    gpib_ren true
    pure received
