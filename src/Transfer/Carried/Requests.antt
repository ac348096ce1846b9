-- ===== src/Transfer/Carried/Requests.antt =====
-- `ProcessSentMessage` with `tmc_gpib_write_timedout`, whatever control requests arrive.
use usb_gpib.Base.{ℕ, Bool, true, false, ◌≡◌, ◌⊎◌, List, ◌++◌, ◌&&◌}
use usb_gpib.State.{World, Env}
use usb_gpib.Gpib.Messages.{messages, SameMessages}
use usb_gpib.Control.Watch.{IsAborted}
use usb_gpib.Transfer.Carried.{IsBeginning}

module _ (e : Env) where
  -- What is left after a transfer that was not aborted.
  abbrev Settles : Bool → World → World → Type 0
  Settles last w u = SameMessages w u × (last ≡ true → u.tmc.handle_read_status ≡ false)

-- All the bytes were sent, and no status request waits after the last transfer; or a beginning of them, and
-- an abort flag is set.
abbrev pub IsCarried : List (ℕ × Bool) → Bool → World → World → Type 0
IsCarried ps last w u =
    ((messages u.gpib.log ≡ messages w.gpib.log ++ ps)
      × ((last && u.tmc.handle_read_status) ≡ false))
    ⊎ (IsBeginning ps w u × IsAborted u)
