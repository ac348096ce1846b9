-- ===== src/Transfer/Interrupted.antt =====
-- `ProcessSentMessage` with `tmc_gpib_write_timedout`, while control requests arrive.
use usb_gpib.Base.{ℕ, Bool, false, not, ◌≡◌, ◌++◌, ◌&&◌, ◌+◌, ◌==◌}
use usb_gpib.State.{World, Env}
use usb_gpib.Exec.{Ensures, Ensures-weaken}
use usb_gpib.Gpib.Sequence.{Shows}
use usb_gpib.Control.{tmc_timedout}
use usb_gpib.Control.Watch.{IsOther, tmc_timedout-IsWatch, tmc_timedout-Keeps}
use usb_gpib.Transfer.{process_sent_message}
use usb_gpib.Transfer.Sent.{sent}
use usb_gpib.Transfer.Delivered.{opening, closing, process_sent_message-Shows}

-- What the device was sent of a transfer, and the flags after it.
pub record IsDelivered (e : Env) (len : ℕ) (first last eom : Bool) (w u : World) : Type 0 where
  pub shown :
      Shows
        (opening first w.gpib_addr
          ++ sent e len (e.out_bytes w.usb.taken) (w.usb.taken + 1) eom
          ++ closing last)
        w
        u
  pub busy : u.tmc.write_busy ≡ not last
  pub plain : u.tmc.parameter_set ≡ false

-- Whatever control requests arrive, and at whatever polls of the bus, but none for the status byte: where
-- EOI is released, no status request waits and the message is no internal command, `ProcessSentMessage`
-- with `tmc_gpib_write_timedout` asserts REN, addresses the device in the first transfer of a message,
-- sends the bytes of the endpoint in order, with EOI on the last one where it is asked for, and frees the
-- bus after the last transfer; or what was seen is a proper beginning of that, followed by a recovery.
-- The write is busy until the last transfer, and the next message may not be a parameter.
pub process_sent_message-IsDelivered :
    (e : Env) (len : ℕ) (first last eom : Bool) (w : World)
    → ((n : ℕ) → IsOther (e.control n))
    → w.gpib.lines.eoi ≡ false
    → w.tmc.handle_read_status ≡ false
    → (first && w.tmc.parameter_set && e.out_bytes w.usb.taken == b'!') ≡ false
    → Ensures
        (λ _ u. IsDelivered e len first last eom w u)
        (process_sent_message e len first last eom (tmc_timedout e) w)
process_sent_message-IsDelivered e len first last eom w others low none_waits text =
    Ensures-weaken
      (λ _ u.
        Shows
          (opening first w.gpib_addr
            ++ sent e len (e.out_bytes w.usb.taken) (w.usb.taken + 1) eom
            ++ closing last)
          w u
        × (u.tmc.write_busy ≡ not last)
        × (u.tmc.parameter_set ≡ false))
      (λ _ u. IsDelivered e len first last eom w u)
      (process_sent_message e len first last eom (tmc_timedout e) w)
      (process_sent_message-Shows e (tmc_timedout-IsWatch e others) (tmc_timedout-Keeps e others)
        len first last eom w low none_waits text)
      λ _ u h. record { shown = h.0; busy = h.1; plain = h.2 }
