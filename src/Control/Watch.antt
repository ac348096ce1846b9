-- ===== src/Control/Watch.antt =====
-- `tmc_gpib_write_timedout` as a timeout function, whatever control requests arrive but READ_STATUS_BYTE.
use usb_gpib.Base.{
  ℕ, true, ◌≡◌, ◌≢◌, refl, sym, ap, ◌∙◌, Option, some, none, ◌||◌, ◌+◌, Bool-cases, inl, inr, arith,
}
use usb_gpib.State.{World, Env, Request}
use usb_gpib.Exec.{Ensures-Returns, Returns, Returns-bind}
use usb_gpib.Endpoint.{select, control_ep}
use usb_gpib.Gpib.Timeouts.{IsWatch, SameBus}
use usb_gpib.Gpib.Handshake.Apart.{steady, Keeps}
use usb_gpib.Control.{
  initiate_abort_bulk_out, check_abort_bulk_out, initiate_abort_bulk_in, check_abort_bulk_in,
  initiate_clear, check_clear, get_capabilities, indicator_pulse, ren_control, local_lockout,
  go_to_local, dispatch_request, control_request, is_addressed, with_request, usb_task,
  tmc_timedout,
}

-- No request for the status byte.
abbrev pub IsOther : Option Request → Type 0
IsOther none = Unit {0}
IsOther (some r) = r.request ≢ 0x80

-- One of the abort flags is set.
abbrev pub IsAborted : World → Type 0
IsAborted w = (w.tmc.out_reset || w.tmc.in_reset) ≡ true

-- What a request leaves alone: all but the flags of the transfers and the events of the USB side; and an
-- abort stays.
record IsAside (w u : World) : Type 0 where
  gpib : u.gpib ≡ w.gpib
  waits : u.tmc.handle_read_status ≡ w.tmc.handle_read_status
  taken : u.usb.taken ≡ w.usb.taken
  parser : u.parser ≡ w.parser
  response : u.response ≡ w.response
  eeprom : u.eeprom ≡ w.eeprom
  gpib_addr : u.gpib_addr ≡ w.gpib_addr
  serial : u.serial ≡ w.serial
  aborted : IsAborted w → IsAborted u

pub bus_of : (w u : World) → u.gpib ≡ w.gpib → SameBus w u
bus_of w u h = record {
  lines = ap (λ g. g.lines) h;
  log = ap (λ g. g.log) h;
  transaction = ap (λ g. g.transaction_active) h;
  terminator = ap (λ g. g.terminator) h;
  enabled = ap (λ g. g.terminator_enabled) h;
}

-- The time and the selected endpoint have no part in it.
IsAside-refl : (w : World) (n k : ℕ) → IsAside w (record (select k w) { now = n })
IsAside-refl w n k = record {
  gpib = refl;
  waits = refl;
  taken = refl;
  parser = refl;
  response = refl;
  eeprom = refl;
  gpib_addr = refl;
  serial = refl;
  aborted = λ a. a;
}

IsAside-trans : (u v w : World) → IsAside u v → IsAside v w → IsAside u w
IsAside-trans u v w a b = record {
  gpib = b.gpib ∙ a.gpib;
  waits = b.waits ∙ a.waits;
  taken = b.taken ∙ a.taken;
  parser = b.parser ∙ a.parser;
  response = b.response ∙ a.response;
  eeprom = b.eeprom ∙ a.eeprom;
  gpib_addr = b.gpib_addr ∙ a.gpib_addr;
  serial = b.serial ∙ a.serial;
  aborted = λ x. b.aborted (a.aborted x);
}

module _ (e : Env) where
  dispatch_request-IsAside :
      (r : Request) (w : World)
      → r.request ≢ 0x80
      → Returns (λ _ u. IsAside w u) (dispatch_request e r w)
  unfolding dispatch_request initiate_abort_bulk_out check_abort_bulk_out initiate_abort_bulk_in
      check_abort_bulk_in initiate_clear check_clear get_capabilities indicator_pulse ren_control
      local_lockout go_to_local
  dispatch_request-IsAside r w other = ground arith

  control_request-IsAside :
      (r : Request) (w : World)
      → r.request ≢ 0x80
      → Returns (λ _ u. IsAside w u) (control_request e r w)
  unfolding control_request
  control_request-IsAside r w other = elim (Bool-cases (is_addressed r)) [
    | inl here ↦ rw here (dispatch_request-IsAside r w other)
    | inr away ↦ rw away (IsAside-refl w w.now w.usb.selected)
  ]

  with_request-IsAside :
      (r : Option Request) (w : World)
      → IsOther r
      → Returns (λ _ u. IsAside w u) (with_request e r w)
  with_request-IsAside none w other = IsAside-refl w w.now w.usb.selected
  with_request-IsAside (some r) w other =
      let v = select control_ep w in
      Returns-bind (λ _ u. IsAside v u) (λ _ u. IsAside w u) (control_request e r v) _
        (control_request-IsAside r v other)
        λ _ u h.
          IsAside-trans w v _ (IsAside-refl w w.now control_ep)
            (IsAside-trans v u _ h (IsAside-refl u u.now w.usb.selected))

  module _ (others : (n : ℕ) → IsOther (e.control n)) where
    -- It tells whether one of the abort flags is set then.
    tmc_timedout-IsAside :
        (w : World)
        → Returns
            (λ t u. IsAside w u × (t ≡ (u.tmc.out_reset || u.tmc.in_reset)))
            (tmc_timedout e w)
    unfolding tmc_timedout usb_task
    tmc_timedout-IsAside w =
        let v = record w { now = w.now + 1 } in
        Returns-bind (λ _ u. IsAside v u)
          (λ t u. IsAside w u × (t ≡ (u.tmc.out_reset || u.tmc.in_reset)))
          (with_request e (e.control w.now) v) _
          (with_request-IsAside (e.control w.now) v (others w.now))
          λ _ u h. (IsAside-trans w v u (IsAside-refl w (w.now + 1) w.usb.selected) h, refl)

    pub tmc_timedout-IsWatch : IsWatch (tmc_timedout e)
    tmc_timedout-IsWatch = record {
      Expired = IsAborted;
      quiet = λ w.
          Ensures-Returns (λ t u. IsAside w u × (t ≡ (u.tmc.out_reset || u.tmc.in_reset))) _
            (tmc_timedout e w) (tmc_timedout-IsAside w)
            λ t u h. (bus_of w u h.0.gpib, λ x. sym h.1 ∙ x);
      sticky = λ w x.
          Ensures-Returns (λ t u. IsAside w u × (t ≡ (u.tmc.out_reset || u.tmc.in_reset))) _
            (tmc_timedout e w) (tmc_timedout-IsAside w)
            λ t u h. (h.1 ∙ h.0.aborted x, h.0.aborted x);
      frame = λ w g n x. x;
      usb_frame = λ w b x. x;
    }

    pub tmc_timedout-Keeps : Keeps steady (tmc_timedout e)
    tmc_timedout-Keeps w =
        Ensures-Returns (λ t u. IsAside w u × (t ≡ (u.tmc.out_reset || u.tmc.in_reset))) _
          (tmc_timedout e w) (tmc_timedout-IsAside w)
          λ t u h. (
            h.0.waits,
            h.0.taken,
            h.0.parser,
            h.0.response,
            h.0.eeprom,
            h.0.gpib_addr,
            h.0.serial,
            λ low. ap (λ g. g.lines.eoi) h.0.gpib ∙ low,
          )
