-- ===== src/Control/Split.antt =====
-- The split requests: a request that starts an abort or a clear, and the ones that ask for its end.
use usb_gpib.Base.{
  ℕ, Bool, true, false, ◌≡◌, refl, ◌⊎◌, inl, inr, ◌==◌, ◌%◌, if◌then◌else◌, Bool-cases, arith,
}
use usb_gpib.State.{World, Env, Request, Tmc}
use usb_gpib.Exec.{modify, Ensures, Ensures-weaken}
use usb_gpib.Endpoint.{on_tmc, clear_setup_stage}
use usb_gpib.Control.{
  initiate_abort_bulk_out, check_abort_bulk_out, initiate_abort_bulk_in, check_abort_bulk_in,
  initiate_clear, check_clear, get_capabilities, indicator_pulse, ren_control, local_lockout,
  go_to_local, read_status_byte, handle_read_status_byte, dispatch_request, control_request,
  is_addressed,
}
use usb_gpib.Control.Status.{IsAnswered, handle_read_status_byte-IsAnswered}

-- A request that starts a split: which one, the state and the value it needs.
abbrev pub Starts : Request → Tmc → ℕ → Type 0
Starts r t q =
    (t.request_in_progress ≡ 0)
    × (q ≡ r.request)
    × ((r.request ≡ 0x05)
        ⊎ ((r.value ≡ t.transfer_tag) × ((r.request ≡ 0x01) ⊎ (r.request ≡ 0x03))))

-- The request that asks for the end of the split in progress, once the main loop has dealt with it.
abbrev pub Ends : Request → Tmc → Type 0
Ends r t =
    ((t.request_in_progress ≡ 0x01) × (r.request ≡ 0x02) × (t.out_reset ≡ false))
    ⊎ (((t.request_in_progress ≡ 0x03) × (r.request ≡ 0x04) × (t.in_reset ≡ false))
        ⊎ ((t.request_in_progress ≡ 0x05)
            × (r.request ≡ 0x06)
            × (t.in_reset ≡ false)
            × (t.out_reset ≡ false)
            × (t.handle_sdc ≡ false)))

-- What one control request may do to the request in progress.
abbrev pub SplitStep : Request → Tmc → ℕ → Type 0
SplitStep r t q = (q ≡ t.request_in_progress) ⊎ (Starts r t q ⊎ (Ends r t × (q ≡ 0)))

module _ (e : Env) where
  -- Every request but the one for the status byte.
  other-SplitStep :
      (r : Request) (w : World)
      → (r.request == 0x80) ≡ false
      → Ensures (λ _ u. SplitStep r w.tmc u.tmc.request_in_progress) (dispatch_request e r w)
  unfolding dispatch_request initiate_abort_bulk_out check_abort_bulk_out initiate_abort_bulk_in
      check_abort_bulk_in initiate_clear check_clear get_capabilities indicator_pulse ren_control
      local_lockout go_to_local
  other-SplitStep r w other = ground arith

  -- The request for the status byte is answered or noted.
  status_if :
      (busy : Bool) (u : World)
      → Ensures
          (λ _ v. v.tmc.request_in_progress ≡ u.tmc.request_in_progress)
          ((if busy
              then modify (on_tmc (λ t. record t { handle_read_status = true }))
              else handle_read_status_byte e)
            u)
  status_if true u = refl
  status_if false u =
      Ensures-weaken (λ _ v. IsAnswered e u v)
        (λ _ v. v.tmc.request_in_progress ≡ u.tmc.request_in_progress) (handle_read_status_byte e u)
        (handle_read_status_byte-IsAnswered e u) λ _ v h. h.split

  status-SplitStep :
      (value : ℕ) (w : World)
      → Ensures
          (λ _ u. u.tmc.request_in_progress ≡ w.tmc.request_in_progress)
          (read_status_byte e value w)
  unfolding read_status_byte
  status-SplitStep value w =
      status_if w.tmc.write_busy
        (on_tmc (λ t. record t { read_status_tag = value % 256 }) (clear_setup_stage w))

  dispatch-SplitStep :
      (r : Request) (w : World)
      → Ensures (λ _ u. SplitStep r w.tmc u.tmc.request_in_progress) (dispatch_request e r w)
  unfolding dispatch_request
  dispatch-SplitStep r w = elim (Bool-cases (r.request == 0x80)) [
    | inl status ↦ rw status (
        Ensures-weaken (λ _ u. u.tmc.request_in_progress ≡ w.tmc.request_in_progress)
          (λ _ u. SplitStep r w.tmc u.tmc.request_in_progress) (read_status_byte e r.value w)
          (status-SplitStep r.value w) λ _ u h. inl h)
    | inr other ↦ other-SplitStep r w other
  ]

  -- A control request leaves the request in progress alone; or it starts one where there was none and
  -- its transfer tag fits; or it ends the one of its own kind, once the main loop has dealt with it.
  pub control_request-SplitStep :
      (r : Request) (w : World)
      → Ensures (λ _ u. SplitStep r w.tmc u.tmc.request_in_progress) (control_request e r w)
  unfolding control_request
  control_request-SplitStep r w = elim (Bool-cases (is_addressed r)) [
    | inl here ↦ rw here (dispatch-SplitStep r w)
    | inr away ↦ rw away (inl refl)
  ]
