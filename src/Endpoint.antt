-- ===== src/Endpoint.antt =====
-- The calls of the USB library that TestAndMeasurement.c makes, as events that the host observes.
use usb_gpib.Base.{ℕ, Bool, [], ◌∷◌, ◌++◌, ◌+◌, ◌/◌, ◌%◌}
use usb_gpib.State.{World, Env, Tmc, UsbEvent, write, clear_setup, clear_in, status_stage}
use usb_gpib.Exec.{M, ret}

abbrev pub on_tmc : (Tmc → Tmc) → World → World
on_tmc f w = record w { tmc = f w.tmc }

-- An event at the selected endpoint.
abbrev pub show : (ℕ → UsbEvent) → World → World
show b w = record w { usb = record (w.usb) { events = w.usb.events ++ (b w.usb.selected ∷ []) } }

abbrev pub select : ℕ → World → World
select ep w = record w { usb = record (w.usb) { selected = ep } }

abbrev pub control_ep : ℕ
control_ep = 0

abbrev pub notification_ep : ℕ
notification_ep = 0x81

abbrev pub in_ep : ℕ
in_ep = 0x82

abbrev pub out_ep : ℕ
out_ep = 3

-- TMC_IO_EPSIZE
abbrev pub io_size : ℕ
io_size = 64

-- `Endpoint_Write_8`
abbrev pub write_8 : ℕ → World → World
write_8 b = show λ ep. write ep b

abbrev pub write_16 : ℕ → World → World
write_16 n w = write_8 (n / 256 % 256) (write_8 (n % 256) w)

abbrev pub write_32 : ℕ → World → World
write_32 n w = write_16 (n / 65536) (write_16 n w)

abbrev pub clear_setup_stage : World → World
clear_setup_stage = show λ ep. clear_setup

-- `Endpoint_ClearIN(); Endpoint_ClearStatusStage();`
abbrev pub finish : World → World
finish w = show (λ ep. status_stage) (show clear_in w)

-- `Endpoint_Read_8` and `Endpoint_IsOUTReceived`
module _ (e : Env) where
  unfoldable pub endpoint_read : M ℕ
  endpoint_read w =
      ret (e.out_bytes w.usb.taken) (record w { usb = record (w.usb) { taken = w.usb.taken + 1 } })

  abbrev pub is_out_received : M Bool
  is_out_received w = ret (e.out_received w.now) (record w { now = w.now + 1 })
