-- ===== src/Control/Deferred.antt =====
-- `tmc_gpib_write_timedout` while a write is busy: a request for the status byte is noted for later.
use usb_gpib.Base.{
  ℕ, Bool, true, false, ◌≡◌, refl, sym, ap, ◌∙◌, Option, some, none, ◌&&◌, ◌||◌, ◌+◌, ◌%◌, ◌==◌,
  if◌then◌else◌, Bool-cases, inl, inr, arith,
}
use usb_gpib.State.{World, Env, Request}
use usb_gpib.Exec.{M, modify, gets, skip, ◌>>=◌, ◌>>◌, Ensures-Returns, Returns, Returns-bind}
use usb_gpib.Endpoint.{select, control_ep, on_tmc, clear_setup_stage}
use usb_gpib.Gpib.Timeouts.{IsWatch}
use usb_gpib.Gpib.Handshake.Apart.{Keeps}
use usb_gpib.Gpib.Handshake.Agree.{busy, Agrees}
use usb_gpib.Control.{
  initiate_abort_bulk_out, check_abort_bulk_out, initiate_abort_bulk_in, check_abort_bulk_in,
  initiate_clear, check_clear, get_capabilities, indicator_pulse, ren_control, local_lockout,
  go_to_local, read_status_byte, dispatch_request, control_request, is_addressed, with_request,
  usb_task, tmc_timedout,
}
use usb_gpib.Control.Watch.{IsAborted, bus_of}

-- A request for the status byte is noted.
abbrev note_status : ℕ → World → World
note_status value w =
    on_tmc (λ t. record t { read_status_tag = value % 256; handle_read_status = true })
      (clear_setup_stage w)

module _ (e : Env) where
  -- A control request, with the branch of READ_STATUS_BYTE that is taken while a write is busy.
  unfoldable deferred_request : Request → M (Unit {0})
  unfolding control_request
  deferred_request r =
      if is_addressed r && r.request == 0x80
      then modify (note_status r.value)
      else control_request e r

  unfoldable deferred_task : Option Request → M (Unit {0})
  unfolding deferred_request
  deferred_task none = skip
  deferred_task (some r) = do
    prev ← gets (λ w. w.usb.selected)
    modify (select control_ep)
    deferred_request r
    modify (select prev)

  -- The timeout function that a busy write sees.
  pub deferring : M Bool
  deferring w =
      (deferred_task (e.control w.now) >> gets (λ w. w.tmc.out_reset || w.tmc.in_reset))
        (record w { now = w.now + 1 })

-- What a request leaves alone while a write is busy.
record IsBeside (w u : World) : Type 0 where
  gpib : u.gpib ≡ w.gpib
  busy : u.tmc.write_busy ≡ w.tmc.write_busy
  taken : u.usb.taken ≡ w.usb.taken
  parser : u.parser ≡ w.parser
  response : u.response ≡ w.response
  eeprom : u.eeprom ≡ w.eeprom
  gpib_addr : u.gpib_addr ≡ w.gpib_addr
  serial : u.serial ≡ w.serial
  aborted : IsAborted w → IsAborted u

-- Only the time and the selected endpoint have changed.
IsBeside-refl : (w : World) (n k : ℕ) → IsBeside w (record (select k w) { now = n })
IsBeside-refl w n k = record {
  gpib = refl;
  busy = refl;
  taken = refl;
  parser = refl;
  response = refl;
  eeprom = refl;
  gpib_addr = refl;
  serial = refl;
  aborted = λ a. a;
}

IsBeside-trans : (u v w : World) → IsBeside u v → IsBeside v w → IsBeside u w
IsBeside-trans u v w a b = record {
  gpib = b.gpib ∙ a.gpib;
  busy = b.busy ∙ a.busy;
  taken = b.taken ∙ a.taken;
  parser = b.parser ∙ a.parser;
  response = b.response ∙ a.response;
  eeprom = b.eeprom ∙ a.eeprom;
  gpib_addr = b.gpib_addr ∙ a.gpib_addr;
  serial = b.serial ∙ a.serial;
  aborted = λ x. b.aborted (a.aborted x);
}

module _ (e : Env) where
  dispatch_request-IsBeside :
      (r : Request) (w : World)
      → (r.request == 0x80) ≡ false
      → Returns (λ _ u. IsBeside w u) (dispatch_request e r w)
  unfolding dispatch_request initiate_abort_bulk_out check_abort_bulk_out initiate_abort_bulk_in
      check_abort_bulk_in initiate_clear check_clear get_capabilities indicator_pulse ren_control
      local_lockout go_to_local
  dispatch_request-IsBeside r w other = ground arith

  deferred_request-IsBeside :
      (r : Request) (w : World) → Returns (λ _ u. IsBeside w u) (deferred_request e r w)
  unfolding deferred_request control_request
  deferred_request-IsBeside r w = elim (Bool-cases (is_addressed r)) [
    | inr away ↦ rw away (IsBeside-refl w w.now w.usb.selected)
    | inl here ↦ rw here (noted_or_done (r.request == 0x80) refl)
  ]
    where
      noted_or_done :
          (status : Bool)
          → (r.request == 0x80) ≡ status
          → Returns
              (λ _ u. IsBeside w u)
              ((if status then modify (note_status r.value) else dispatch_request e r) w)
      noted_or_done true h = ground arith
      noted_or_done false h = dispatch_request-IsBeside r w h

  deferred_task-IsBeside :
      (r : Option Request) (w : World) → Returns (λ _ u. IsBeside w u) (deferred_task e r w)
  unfolding deferred_task
  deferred_task-IsBeside none w = IsBeside-refl w w.now w.usb.selected
  deferred_task-IsBeside (some r) w =
      let v = select control_ep w in
      Returns-bind (λ _ u. IsBeside v u) (λ _ u. IsBeside w u) (deferred_request e r v) _
        (deferred_request-IsBeside r v)
        λ _ u h.
          IsBeside-trans w v _ (IsBeside-refl w w.now control_ep)
            (IsBeside-trans v u _ h (IsBeside-refl u u.now w.usb.selected))

  -- It returns, whatever the request is, and tells whether one of the abort flags is set then.
  deferring-IsBeside :
      (w : World)
      → Returns (λ t u. IsBeside w u × (t ≡ (u.tmc.out_reset || u.tmc.in_reset))) (deferring e w)
  unfolding deferring
  deferring-IsBeside w =
      let v = record w { now = w.now + 1 } in
      Returns-bind (λ _ u. IsBeside v u)
        (λ t u. IsBeside w u × (t ≡ (u.tmc.out_reset || u.tmc.in_reset)))
        (deferred_task e (e.control w.now) v) _ (deferred_task-IsBeside (e.control w.now) v)
        λ _ u h. (IsBeside-trans w v u (IsBeside-refl w (w.now + 1) w.usb.selected) h, refl)

  pub deferring-IsWatch : IsWatch (deferring e)
  deferring-IsWatch = record {
    Expired = IsAborted;
    quiet = λ w.
        Ensures-Returns (λ t u. IsBeside w u × (t ≡ (u.tmc.out_reset || u.tmc.in_reset))) _
          (deferring e w) (deferring-IsBeside w) λ t u h. (bus_of w u h.0.gpib, λ x. sym h.1 ∙ x);
    sticky = λ w x.
        Ensures-Returns (λ t u. IsBeside w u × (t ≡ (u.tmc.out_reset || u.tmc.in_reset))) _
          (deferring e w) (deferring-IsBeside w) λ t u h. (h.1 ∙ h.0.aborted x, h.0.aborted x);
    frame = λ w g n x. x;
    usb_frame = λ w b x. x;
  }

  pub expired-IsAborted : (w : World) → deferring-IsWatch.Expired w → IsAborted w
  unfolding deferring-IsWatch
  expired-IsAborted w x = x

  pub deferring-Keeps : Keeps busy (deferring e)
  deferring-Keeps w =
      Ensures-Returns (λ t u. IsBeside w u × (t ≡ (u.tmc.out_reset || u.tmc.in_reset))) _
        (deferring e w) (deferring-IsBeside w)
        λ t u h. (
          λ b. h.0.busy ∙ b,
          h.0.taken,
          h.0.parser,
          h.0.response,
          h.0.eeprom,
          h.0.gpib_addr,
          h.0.serial,
          λ low. ap (λ g. g.lines.eoi) h.0.gpib ∙ low,
        )

  -- What the code does with a request while a write is busy.
  request_same :
      (r : Request) (w : World)
      → w.tmc.write_busy ≡ true
      → control_request e r w ≡ deferred_request e r w
  unfolding deferred_request control_request dispatch_request read_status_byte
  request_same r w b = elim (Bool-cases (is_addressed r)) [
    | inr away ↦ rw away refl
    | inl here ↦ elim (Bool-cases (r.request == 0x80)) [
      | inl status ↦ rw (here, status, b) refl
      | inr other ↦ rw (here, other) refl
    ]
  ]

  -- While a write is busy, `tmc_gpib_write_timedout` does the same.
  pub tmc_timedout-Agrees : Agrees (tmc_timedout e) (deferring e)
  unfolding tmc_timedout usb_task deferring deferred_task
  tmc_timedout-Agrees w b = task_same (e.control w.now) (record w { now = w.now + 1 }) b
    where
      task_same :
          (r : Option Request) (v : World)
          → v.tmc.write_busy ≡ true
          → (with_request e r >> gets (λ w. w.tmc.out_reset || w.tmc.in_reset)) v
            ≡ (deferred_task e r >> gets (λ w. w.tmc.out_reset || w.tmc.in_reset)) v
      task_same none v b = refl
      task_same (some r) v b = rw (request_same r (select control_ep v) b) refl
