-- ===== src/Transfer/Run/Settled.antt =====
-- The state that the messages and the control requests keep valid.
use usb_gpib.Base.{
  ℕ, Bool, true, false, ◌≡◌, refl, sym, ◌∙◌, ap, subst, ◌⊎◌, ◌≤◌, ◌<◌, ◌==◌, length, Option, some,
  none, ◌+◌, arith,
}
use usb_gpib.State.{World, Env, Response, Serial, Request}
use usb_gpib.Exec.{modify}
use usb_gpib.Endpoint.{on_tmc, select, control_ep}
use usb_gpib.Gpib.Handshake.Apart.{Side, Apart, Apart-refl, Keeps, Keeps-bind, Keeps-if, Keeps-when}
use usb_gpib.Parser.Address.Packed.{IsAddress}
use usb_gpib.Control.{
  initiate_abort_bulk_out, check_abort_bulk_out, initiate_abort_bulk_in, check_abort_bulk_in,
  initiate_clear, check_clear, get_capabilities, indicator_pulse, ren_control, local_lockout,
  go_to_local, read_status_byte, handle_read_status_byte, dispatch_request, control_request,
  is_addressed, with_request, usb_task, tmc_timedout,
}
use usb_gpib.Control.Serve.{handle_read_status_byte-Keeps}

-- The split request in progress: none, an abort of bulk out or of bulk in, or a clear.
abbrev pub IsSplit : ℕ → Type 0
IsSplit req = (req ≡ 0) ⊎ ((req ≡ 1) ⊎ ((req ≡ 3) ⊎ (req ≡ 5)))

-- The counters of a message to the device are the same, and the split request is still a valid one.
abbrev pub counted : Side
counted = record {
  SameTmc = λ t t'.
      (t'.remaining ≡ t.remaining)
      × (t'.last_complete ≡ t.last_complete)
      × (t'.write_busy ≡ t.write_busy)
      × (IsSplit t.request_in_progress → IsSplit t'.request_in_progress);
  SameUsb = λ b b'. Unit {0};
  tmc-refl = (refl, refl, refl, λ h. h);
  usb-refl = tt;
  tmc-trans = λ a b. (b.0 ∙ a.0, b.1 ∙ a.1, b.2 ∙ a.2, λ h. b.3 (a.3 h));
  usb-trans = λ a b. tt;
}

-- A response that can be read: none, or one that is read from within.
pub record IsReadable (r : Response) : Type 0 where
  pub size : length r.buffer ≡ 8
  pub len_lt : r.len < 8
  pub rpos_le : (r.len ≡ 0) ⊎ (r.rpos ≤ r.len)

-- The split request, the response, the address, EOI between two bytes, one cell of the EEPROM that is no
-- setting, and the serial number.
pub record IsSettled (cell value : ℕ) (text : Serial) (w : World) : Type 0 where
  pub split : IsSplit w.tmc.request_in_progress
  pub response : IsReadable w.response
  pub address : IsAddress w.gpib_addr
  pub eoi : w.gpib.lines.eoi ≡ false
  pub rom : w.eeprom cell ≡ value
  pub serial : w.serial ≡ text

module _ (cell value : ℕ) (text : Serial) where
  -- Transfers on the bus keep it.
  pub IsSettled-Apart :
      (w u : World) → IsSettled cell value text w → Apart counted w u → IsSettled cell value text u
  IsSettled-Apart w u h a = record {
    split = a.0.3 h.split;
    response = subst IsReadable (sym a.3) h.response;
    address = subst IsAddress (sym a.5) h.address;
    eoi = a.7 h.eoi;
    rom = ap (λ rom. rom cell) a.4 ∙ h.rom;
    serial = a.6 ∙ h.serial;
  }

module _ (e : Env) where
  pub status-Keeps : Keeps counted (handle_read_status_byte e)
  status-Keeps =
      handle_read_status_byte-Keeps counted
        (λ t t' btag status h. (
          ap (λ t. t.remaining) h,
          ap (λ t. t.last_complete) h,
          ap (λ t. t.write_busy) h,
          subst IsSplit (sym (ap (λ t. t.request_in_progress) h)),
        ))
        (λ b b' h. tt) e

  other-Keeps : (r : Request) → (r.request == 0x80) ≡ false → Keeps counted (dispatch_request e r)
  unfolding dispatch_request initiate_abort_bulk_out check_abort_bulk_out initiate_abort_bulk_in
      check_abort_bulk_in initiate_clear check_clear get_capabilities indicator_pulse ren_control
      local_lockout go_to_local
  other-Keeps r other w = ground arith

  read_status-Keeps : (value : ℕ) → Keeps counted (read_status_byte e value)
  unfolding read_status_byte
  read_status-Keeps value w =
      Keeps-if counted w.tmc.write_busy
        (modify (on_tmc (λ t. record t { handle_read_status = true }))) (handle_read_status_byte e)
        (λ u. Apart-refl counted u) status-Keeps _

  dispatch-Keeps : (r : Request) → Keeps counted (dispatch_request e r)
  unfolding dispatch_request
  dispatch-Keeps r = by_status (r.request == 0x80) refl
    where
      by_status :
          (status : Bool) → (r.request == 0x80) ≡ status → Keeps counted (dispatch_request e r)
      by_status false h = other-Keeps r h
      by_status true h = λ w. rw h (read_status-Keeps r.value w)

  request-Keeps : (r : Request) → Keeps counted (control_request e r)
  unfolding control_request
  request-Keeps r = Keeps-when counted (is_addressed r) (dispatch_request e r) (dispatch-Keeps r)

  with_request-Keeps : (r : Option Request) → Keeps counted (with_request e r)
  with_request-Keeps none w = Apart-refl counted w
  with_request-Keeps (some r) w =
      Keeps-bind counted (control_request e r) _ (request-Keeps r) (λ _ u. Apart-refl counted u)
        (select control_ep w)

  pub usb_task-Keeps : Keeps counted (usb_task e)
  unfolding usb_task
  usb_task-Keeps w = with_request-Keeps (e.control w.now) (record w { now = w.now + 1 })

  pub timedout-Keeps : Keeps counted (tmc_timedout e)
  unfolding tmc_timedout
  timedout-Keeps w =
      Keeps-bind counted (usb_task e) _ usb_task-Keeps (λ _ u. Apart-refl counted u) w
