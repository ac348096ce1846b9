-- ===== src/Bootloader/Main.antt =====
-- BootloaderMassStorage.c: the start, the main loop and the events of the boot loader.
pub mod Jump
pub mod Leave
use usb_gpib.Base.{
  ℕ, zero, suc, Bool, true, false, List, [], ◌∷◌, Option, none, some, ◌+◌, ◌-◌, ◌%◌, ◌<◌, ◌&&◌,
  ◌||◌, ◌==◌, not, bit_and, bit_or, ltb, if◌then◌else◌,
}
use usb_gpib.Bootloader.Flash.{Spm}
use usb_gpib.Bootloader.Scsi.{Command, Storage, decode_scsi_command}

-- The masks of the LEDs.
pub data Leds : Type 0 where
  not_ready : Leds
  enumerating : Leds
  ready : Leds
  error : Leds
  busy : Leds

abbrev pub magic_boot_key : ℕ
magic_boot_key = 0xdc42

-- What `Application_Jump_Check` reads: MCUSR, the high fuse bits, the key in the memory that is not
-- cleared, the level of PB2 when its pull-up has settled, and the word at address 0.
pub record Reset : Type 0 where
  pub mcusr : ℕ
  pub high_fuse : ℕ
  pub boot_key : ℕ
  pub pb2 : Bool
  pub first_word : ℕ

-- WDRF and EXTRF are the bits 3 and 1.
abbrev pub clear_bits : ℕ → Reset → Reset
clear_bits mask r = record r { mcusr = bit_and r.mcusr (255 - mask) }

-- The block for any board but three.
abbrev pub check_fuse : Reset → Bool × Reset
check_fuse r =
    if bit_and r.high_fuse 1 == 0
    then (bit_and r.mcusr 2 == 0 || r.boot_key == magic_boot_key, clear_bits 2 r)
    else (true, clear_bits 8 r)

-- `Application_Jump_Check`; the result tells whether the application is started.
unfoldable pub application_jump_check : Reset → Bool × Reset
application_jump_check r =
    let checked = check_fuse (clear_bits 8 r) in
    let jump_to_application = if not r.pb2 then false else true in
    let application_valid = not (r.first_word == 0xffff) in
    if jump_to_application && application_valid
    then (true, record (clear_bits 8 checked.1) { boot_key = 0 })
    else (false, checked.1)

-- The state of the boot loader.
pub record Loader (spm : Spm) : Type 0 where
  pub storage : Storage spm
  pub ticks_since_last_command : ℕ
  pub leds : Leds
  pub attached : Bool
  pub boot_key : ℕ
  pub watchdog : Bool

module _ (spm : Spm) where
  abbrev pub set_leds : Leds → Loader spm → Loader spm
  set_leds v l = record l { leds = v }

  -- `EVENT_USB_Device_Connect`, `EVENT_USB_Device_Disconnect` and
  -- `EVENT_USB_Device_ConfigurationChanged`, where the library has or has not set up the endpoints.
  abbrev pub event_connect : Loader spm → Loader spm
  event_connect = set_leds enumerating

  abbrev pub event_disconnect : Loader spm → Loader spm
  event_disconnect = set_leds not_ready

  abbrev pub event_configuration_changed : Bool → Loader spm → Loader spm
  event_configuration_changed config_success = set_leds (if config_success then ready else error)

  -- `CALLBACK_MS_Device_SCSICommandReceived`
  unfoldable pub command_received : Command → Loader spm → Bool × Loader spm
  unfolding decode_scsi_command
  command_received c l =
      let busy_l = set_leds busy l in
      let decoded = decode_scsi_command spm c busy_l.storage in
      let done = set_leds ready (record busy_l { storage = decoded.1 }) in
      (decoded.0, record done { ticks_since_last_command = 0 })

  -- A round of the loop: `MS_Device_USBTask` hands over a command, if one has come in.
  unfoldable pub ms_usb_task : Option Command → Loader spm → Loader spm
  unfolding command_received
  ms_usb_task none l = l
  ms_usb_task (some c) l = (command_received c l).1

  -- The condition of the loop: the counter, of 8 bits, is only touched where RunBootloader is false.
  abbrev pub runs_on : Loader spm → Bool × Loader spm
  runs_on l = if l.storage.run_bootloader then (true, l) else (
    ltb l.ticks_since_last_command 255,
    record l { ticks_since_last_command = (l.ticks_since_last_command + 1) % 256 },
  )

  -- The loop of `main`, for what comes in with each of its rounds. It gives the rounds that are left
  -- when the loop is over, or nothing while it is not.
  unfoldable pub main_loop :
      List (Option Command) → Loader spm → Option (List (Option Command) × Loader spm)
  unfolding ms_usb_task
  main_loop [] l = none
  main_loop (e ∷ es) l =
      let rest = main_loop es (ms_usb_task e (runs_on l).1) in
      if (runs_on l).0 then rest else some (e ∷ es, (runs_on l).1)

  -- What follows the loop, until the watchdog resets the chip.
  abbrev pub leave : Loader spm → Loader spm
  leave l = record l { attached = false; boot_key = magic_boot_key; watchdog = true }

  abbrev pub leave_if_over : Option (List (Option Command) × Loader spm) → Option (Loader spm)
  leave_if_over none = none
  leave_if_over (some r) = some (leave r.1)

  -- `main`, from the LEDs on.
  unfoldable pub boot_main : List (Option Command) → Loader spm → Option (Loader spm)
  unfolding main_loop
  boot_main es l = leave_if_over (main_loop es (set_leds not_ready l))
