-- ===== src/Startup.antt =====
-- `main` of TestAndMeasurement.c: the start-up, with the serial number that the EEPROM remembers, and
-- the main loop.
pub mod Remembered
pub mod Pulse
pub mod Reported
pub mod Termination
pub mod Rounds
mod Tests
use usb_gpib.Base.{
  ℕ, zero, suc, Bool, true, false, List, [], ◌∷◌, ◌+◌, ◌-◌, ◌*◌, ◌/◌, ◌%◌, ◌&&◌, ◌||◌, ◌==◌, not,
  ltb, leb, get_or, if◌then◌else◌,
}
use usb_gpib.State.{World, Env, Serial, attach, detach}
use usb_gpib.Exec.{M, waiting, halted, pure, modify, gets, skip, when, ◌>>=◌, ◌>>◌}
use usb_gpib.Endpoint.{show, on_tmc}
use usb_gpib.Gpib.Lines.{on_lines, set_led, read_pin, gpib_init, gpib_ren}
use usb_gpib.Gpib.Commands.{gpib_is_connected}
use usb_gpib.Parser.Commands.{
  eeprom_update_if_changed, gpib_set_readtermination, jump_to_bootloader,
}
use usb_gpib.Control.{usb_task}
use usb_gpib.Transfer.Task.{gpib_enable_readterminator, tmc_task}
use usb_gpib.Device.Search.{find_gpib_device}
use usb_gpib.Device.Identify.{max_serial, identify_gpib_device}
use usb_gpib.Device.Serial.{set_internal_serial}

-- `LED`
abbrev pub led : Bool → M (Unit {0})
led on = modify (on_lines (set_led on))

-- The lower and the upper byte of each character.
abbrev pub char_bytes : List ℕ → List ℕ
char_bytes [] = []
char_bytes (c ∷ cs) = c % 256 ∷ c / 256 % 256 ∷ char_bytes cs

-- `tmc_serial_string` as it lies in memory.
abbrev pub serial_bytes : Serial → List ℕ
serial_bytes s = s.size ∷ s.kind ∷ char_bytes s.text

abbrev pub read_chars : (ℕ → ℕ) → ℕ → ℕ → List ℕ
read_chars byte zero i = []
read_chars byte (suc n) i = (byte i + 256 * byte (i + 1)) ∷ read_chars byte n (i + 2)

-- The memory of `tmc_serial_string` from its bytes.
abbrev pub serial_from : (ℕ → ℕ) → Serial
serial_from byte = record { size = byte 0; kind = byte 1; text = read_chars byte max_serial 2 }

-- sizeof(tmc_serial_string)
abbrev pub serial_size : ℕ
serial_size = 102

-- `eeprom_update_if_changed(1+i, *pdat++);` from byte `i` on, so many times.
unfoldable pub store_serial : ℕ → ℕ → M (Unit {0})
unfolding eeprom_update_if_changed
store_serial zero i = skip
store_serial (suc n) i = do
  byte ← gets (λ w. get_or (serial_bytes w.serial) i 0)
  eeprom_update_if_changed (1 + i) byte
  store_serial n (i + 1)

-- `*pdat++ = eeprom_read_byte((uint8_t*)(1+i));` for every byte.
unfoldable pub load_serial : M (Unit {0})
load_serial = modify λ w. record w { serial = serial_from (λ i. w.eeprom (1 + i)) }

-- After `identifyGpibDevice`: the device's string is stored, or the stored one is taken where the
-- address is that of the previous device.
unfoldable pub remember : ℕ → Bool → M (Unit {0})
unfolding eeprom_update_if_changed store_serial load_serial
remember prevaddr received =
    if received
    then (do
      addr ← gets (λ w. w.gpib_addr)
      eeprom_update_if_changed 0 addr
      store_serial serial_size 0)
    else (do addr ← gets (λ w. w.gpib_addr); when (prevaddr == addr) load_serial)

-- The read termination that is stored in the EEPROM.
unfoldable pub apply_termination : M (Unit {0})
unfolding gpib_set_readtermination gpib_enable_readterminator
apply_termination = do
  c ← gets (λ w. w.eeprom 105)
  if c == 10 || c == 13
      then (gpib_set_readtermination c >> gpib_enable_readterminator true)
      else gpib_enable_readterminator false

-- `(tmc_serial_string.Header.Size - sizeof(USB_Descriptor_Header_t)) >> 1`, as a uint16_t.
abbrev pub serial_length : ℕ → ℕ
serial_length size = if ltb size 2 then 65535 else (size - 2) / 2

-- The serial number has at most 20 characters where the EEPROM asks for it.
unfoldable pub shorten_serial : M (Unit {0})
shorten_serial = modify λ w.
    if w.eeprom 106 == 1 && ltb 20 (serial_length w.serial.size)
    then record w { serial = record (w.serial) { size = 42 } }
    else w

-- Where a pulse is under way.
abbrev pub pulse_step : ℕ → ℕ → ℕ → M ℕ
pulse_step start pending count =
    if ltb 0 pending
    then if pending == 2
      then led false >> (modify (on_tmc (λ t. record t { pulse_indicator = 1 })) >> pure count)
      else if ltb ((2 + start) % 256) count
      then led true
        >> (modify (on_tmc (λ t. record t { pulse_indicator = pending - 1 })) >> pure start)
      else pure start
    else pure start

-- The pulse indicator: the LED goes off, and on again later. It returns `pulseind_starttime`.
unfoldable pub pulse : ℕ → M ℕ
pulse start = do
  pending ← gets (λ w. w.tmc.pulse_indicator)
  count ← gets (λ w. w.gpib.timer.count_100ms)
  pulse_step start pending count

module _ (e : Env) where
  -- `check_bootloaderEntry`
  unfoldable pub check_bootloader_entry : M (Unit {0})
  unfolding jump_to_bootloader
  check_bootloader_entry = do key ← read_pin e (λ s. s.boot_key); when (not key) jump_to_bootloader

  -- `SetupHardware`
  unfoldable pub setup_hardware : M (Unit {0})
  unfolding set_internal_serial
  setup_hardware = do modify (show (λ ep. detach)); set_internal_serial e false; led true

  -- The device is waited for, for at most so many rounds.
  unfoldable pub wait_connected : ℕ → M (Unit {0})
  unfolding gpib_is_connected check_bootloader_entry
  wait_connected zero = λ w. waiting
  wait_connected (suc n) = do
    connected ← gpib_is_connected e
    elim connected [
      | true ↦ skip
      | false ↦ led true >> (led false >> (check_bootloader_entry >> wait_connected n))
    ]

  -- A reset by the watchdog.
  unfoldable pub reset : M (Unit {0})
  reset w = halted

  -- A device is searched for, for at most so many rounds; the firmware restarts when it is unplugged.
  unfoldable pub wait_found : ℕ → M (Unit {0})
  unfolding find_gpib_device gpib_is_connected check_bootloader_entry reset
  wait_found zero = λ w. waiting
  wait_found (suc n) = do
    found ← find_gpib_device e
    elim found [
      | true ↦ skip
      | false ↦ (do
        led true
        led false
        connected ← gpib_is_connected e
        when (not connected) reset
        check_bootloader_entry
        wait_found n)
    ]

  -- The serial number: from the device or the EEPROM, or from the address where the user has asked
  -- for that.
  unfoldable pub choose_serial : ℕ → M (Unit {0})
  unfolding identify_gpib_device remember set_internal_serial gpib_ren
  choose_serial autoid =
      if not (autoid == 1)
      then (do
        prevaddr ← gets (λ w. w.eeprom 0)
        received ← identify_gpib_device e
        remember prevaddr received)
      else (do set_internal_serial e true; gpib_ren false; gpib_ren true)

  -- `main`, up to its loop
  unfoldable pub start_up : M (Unit {0})
  unfolding setup_hardware gpib_init apply_termination wait_connected wait_found choose_serial
      shorten_serial
  start_up = do
    setup_hardware
    gpib_init
    apply_termination
    wait_connected e.polls
    autoid ← gets (λ w. w.eeprom 104)
    wait_found e.polls
    choose_serial autoid
    shorten_serial
    led true
    modify (show (λ ep. attach))
    modify (on_tmc (λ t. record t { pulse_indicator = 0 }))

  -- One round of the loop of `main`, with `pulseind_starttime`.
  unfoldable pub main_round : ℕ → M ℕ
  unfolding tmc_task check_bootloader_entry pulse gpib_is_connected reset usb_task
  main_round start = do
    tmc_task e
    check_bootloader_entry
    start' ← pulse start
    connected ← gpib_is_connected e
    when (not connected) (led false >> (modify (show (λ ep. detach)) >> reset))
    usb_task e
    pure start'

  -- The loop, for so many rounds.
  unfoldable pub main_rounds : ℕ → ℕ → M (Unit {0})
  unfolding main_round
  main_rounds zero start = λ w. waiting
  main_rounds (suc n) start = do start' ← main_round start; main_rounds n start'

  -- `main`
  unfoldable pub main : M (Unit {0})
  unfolding start_up main_rounds
  main = do start_up; main_rounds e.polls 0
