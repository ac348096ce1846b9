-- ===== src/Control/Quiet.antt =====
-- While a transfer to the bus is active, the control requests leave the bus alone.
use usb_gpib.Base.{true, ◌≡◌, refl, Option, some, none, ◌+◌, Bool-cases, inl, inr, arith}
use usb_gpib.State.{World, Env, Request}
use usb_gpib.Exec.{Returns, Returns-bind, Returns-weaken}
use usb_gpib.Endpoint.{select, control_ep}
use usb_gpib.Control.{
  initiate_abort_bulk_out, check_abort_bulk_out, initiate_abort_bulk_in, check_abort_bulk_in,
  initiate_clear, check_clear, get_capabilities, indicator_pulse, ren_control, local_lockout,
  go_to_local, read_status_byte, dispatch_request, control_request, is_addressed, with_request,
  usb_task, tmc_timedout,
}

-- The lines, the log and the settings of the bus are the same, and the transfer is still active.
pub record IsUntouched (w u : World) : Type 0 where
  pub gpib : u.gpib ≡ w.gpib
  pub busy : u.tmc.write_busy ≡ true

module _ (e : Env) where
  dispatch_request-IsUntouched :
      (r : Request) (w : World)
      → w.tmc.write_busy ≡ true
      → Returns (λ _ u. IsUntouched w u) (dispatch_request e r w)
  unfolding dispatch_request initiate_abort_bulk_out check_abort_bulk_out initiate_abort_bulk_in
      check_abort_bulk_in initiate_clear check_clear get_capabilities indicator_pulse ren_control
      local_lockout go_to_local read_status_byte
  dispatch_request-IsUntouched r w busy = ground arith

  control_request-IsUntouched :
      (r : Request) (w : World)
      → w.tmc.write_busy ≡ true
      → Returns (λ _ u. IsUntouched w u) (control_request e r w)
  unfolding control_request
  control_request-IsUntouched r w busy = elim (Bool-cases (is_addressed r)) [
    | inl here ↦ rw here (dispatch_request-IsUntouched r w busy)
    | inr away ↦ rw away (record { gpib = refl; busy = busy })
  ]

  with_request-IsUntouched :
      (r : Option Request) (w : World)
      → w.tmc.write_busy ≡ true
      → Returns (λ _ u. IsUntouched w u) (with_request e r w)
  with_request-IsUntouched none w busy = record { gpib = refl; busy = busy }
  with_request-IsUntouched (some r) w busy =
      Returns-bind (λ _ u. IsUntouched (select control_ep w) u) (λ _ u. IsUntouched w u)
        (control_request e r (select control_ep w)) _
        (control_request-IsUntouched r (select control_ep w) busy)
        λ _ u h. record { gpib = h.gpib; busy = h.busy }

  -- While a write to the bus is active, `tmc_gpib_write_timedout` returns, and whatever control
  -- request the USB task has met, the bus is untouched and the write is still active.
  pub tmc_timedout-IsUntouched :
      (w : World) → w.tmc.write_busy ≡ true → Returns (λ _ u. IsUntouched w u) (tmc_timedout e w)
  unfolding tmc_timedout usb_task
  tmc_timedout-IsUntouched w busy =
      Returns-bind (λ _ u. IsUntouched w u) (λ _ u. IsUntouched w u)
        (with_request e (e.control w.now) (record w { now = w.now + 1 })) _
        (Returns-weaken (λ _ u. IsUntouched (record w { now = w.now + 1 }) u)
          (λ _ u. IsUntouched w u) (with_request e (e.control w.now) (record w { now = w.now + 1 }))
          (with_request-IsUntouched (e.control w.now) (record w { now = w.now + 1 }) busy)
          λ _ u h. record { gpib = h.gpib; busy = h.busy })
        λ _ u h. h
