-- ===== src/Control.antt =====
-- The control requests of the USBTMC and USB488 class: `EVENT_USB_Device_ControlRequest` of
-- SW/TestAndMeasurement/TestAndMeasurement.c, with one function for each case of its switch.
pub mod Quiet
pub mod Split
pub mod Status
pub mod Watch
pub mod Deferred
pub mod Serve
pub mod Aborting
mod Tests
use usb_gpib.Base.{
  ℕ, Bool, true, false, not, List, [], ◌∷◌, Option, some, none, ◌+◌, ◌%◌, ◌&&◌, ◌||◌, ◌==◌, bit_and,
  bit_or, if◌then◌else◌,
}
use usb_gpib.State.{World, Env, Request, Tmc, write_stream, clear_out}
use usb_gpib.Exec.{M, pure, ret, bind, modify, gets, skip, when, ◌>>=◌, ◌>>◌}
use usb_gpib.Endpoint.{
  on_tmc, show, select, control_ep, in_ep, out_ep, write_8, write_16, write_32, clear_setup_stage,
  finish,
}
use usb_gpib.Gpib.Lines.{gpib_ren}
use usb_gpib.Gpib.Timeouts.{timeout_start, is_timedout}
use usb_gpib.Gpib.Commands.{gpib_read_status_byte}

-- bRequest
abbrev pub req_initiate_abort_bulk_out : ℕ
req_initiate_abort_bulk_out = 0x01

abbrev pub req_initiate_abort_bulk_in : ℕ
req_initiate_abort_bulk_in = 0x03

abbrev pub req_initiate_clear : ℕ
req_initiate_clear = 0x05

-- bmRequestType of the class requests to the device, for an endpoint and for the interface.
abbrev pub class_endpoint : ℕ
class_endpoint = 0xa2

abbrev pub class_interface : ℕ
class_interface = 0xa1

-- TMC_STATUS_…
abbrev pub success : ℕ
success = 0x01

abbrev pub status_pending : ℕ
status_pending = 0x02

abbrev pub transfer_not_in_progress : ℕ
transfer_not_in_progress = 0x81

abbrev pub split_not_in_progress : ℕ
split_not_in_progress = 0x82

abbrev pub split_in_progress : ℕ
split_in_progress = 0x83

-- `Capabilities`, as its bytes.
abbrev pub capabilities : List ℕ
capabilities =
    1 ∷ 0 ∷ 0x00 ∷ 0x01 ∷ 4 ∷ 1 ∷ 0 ∷ 0 ∷ 0 ∷ 0 ∷ 0 ∷ 0 ∷ 0x00 ∷ 0x01 ∷ 7 ∷ 7 ∷ 0 ∷ 0 ∷ 0 ∷ 0 ∷ 0
    ∷ 0 ∷ 0 ∷ 0 ∷ []

-- The status of a request that starts an abort.
abbrev pub abort_status : ℕ → Tmc → ℕ
abort_status value t =
    if not (t.request_in_progress == 0)
    then split_in_progress
    else if not (value == t.transfer_tag)
    then transfer_not_in_progress
    else success

-- The status of a request that asks whether one has completed.
abbrev pub check_status : ℕ → Bool → Tmc → ℕ
check_status req busy t =
    if not (t.request_in_progress == req)
    then split_not_in_progress
    else if busy
    then status_pending
    else success

-- A request is started where the status is a success.
abbrev pub begin : ℕ → ℕ → Tmc → Tmc
begin status req t = if status == success then record t { request_in_progress = req } else t

-- A request has ended where the status is a success.
abbrev pub end : ℕ → Tmc → Tmc
end status t = if status == success then record t { request_in_progress = 0 } else t

-- Req_InitiateAbortBulkOut
unfoldable pub initiate_abort_bulk_out : ℕ → World → World
initiate_abort_bulk_out value w =
    let status = abort_status value w.tmc in
    let t = begin status req_initiate_abort_bulk_out w.tmc in
    finish (
      write_8 t.transfer_tag
        (write_8 status (clear_setup_stage (on_tmc (λ _. record t { out_reset = true }) w))))

-- Req_InitiateAbortBulkIn
unfoldable pub initiate_abort_bulk_in : ℕ → World → World
initiate_abort_bulk_in value w =
    let status = abort_status value w.tmc in
    let t = begin status req_initiate_abort_bulk_in w.tmc in
    finish (
      write_8 t.transfer_tag
        (write_8 status (clear_setup_stage (on_tmc (λ _. record t { in_reset = true }) w))))

-- The answer to Req_CheckAbortBulkOutStatus and Req_CheckAbortBulkInStatus.
abbrev pub check_abort : ℕ → Bool → World → World
check_abort req busy w =
    let status = check_status req busy w.tmc in
    finish (
      write_32 w.tmc.last_transfer_length
        (write_16 0 (write_8 0 (write_8 status (clear_setup_stage (on_tmc (end status) w))))))

unfoldable pub check_abort_bulk_out : World → World
check_abort_bulk_out w = check_abort req_initiate_abort_bulk_out w.tmc.out_reset w

unfoldable pub check_abort_bulk_in : World → World
check_abort_bulk_in w = check_abort req_initiate_abort_bulk_in w.tmc.in_reset w

-- Req_InitiateClear: the status byte is written in any case, after the one of the first branch.
unfoldable pub initiate_clear : World → World
initiate_clear w =
    let u = clear_setup_stage w in
    let v =
      if not (w.tmc.request_in_progress == 0)
      then write_8 split_in_progress u
      else on_tmc
          (λ t. record t {
            in_reset = true;
            out_reset = true;
            handle_sdc = true;
            request_in_progress = req_initiate_clear;
          })
          u in
    finish (write_8 success v)

-- Req_CheckClearStatus
unfoldable pub check_clear : World → World
check_clear w =
    let status =
      check_status req_initiate_clear (w.tmc.in_reset || w.tmc.out_reset || w.tmc.handle_sdc)
        w.tmc in
    finish (write_8 0 (write_8 status (clear_setup_stage (on_tmc (end status) w))))

-- Req_GetCapabilities
unfoldable pub get_capabilities : World → World
get_capabilities w =
    show clear_out (show (λ ep. write_stream ep capabilities) (clear_setup_stage w))

-- The status response of the requests that only set a flag.
abbrev pub acknowledge : World → World
acknowledge w = finish (write_8 success (clear_setup_stage w))

-- Req_IndicatorPulse
unfoldable pub indicator_pulse : World → World
indicator_pulse w =
    on_tmc (λ t. record t { pulse_indicator = 2; parameter_set = true }) (acknowledge w)

-- Req_RenControl
unfoldable pub ren_control : ℕ → World → World
ren_control value w = acknowledge (
    on_tmc (λ t. record t { handle_ren_control = if bit_and value 0xff == 1 then 0x81 else 0x80 })
      w)

-- Req_LocalLockout
unfoldable pub local_lockout : World → World
local_lockout w = acknowledge (on_tmc (λ t. record t { handle_local_lockout = true }) w)

-- Req_GoToLocal
unfoldable pub go_to_local : World → World
go_to_local w = acknowledge (on_tmc (λ t. record t { handle_go_to_local = true }) w)

-- The end of `handle_control_Req_ReadStatusByte`: the answer, and what is kept for the notification.
unfoldable pub answer_status_byte : ℕ → ℕ → ℕ → World → World
answer_status_byte prev btag status w =
    let v = finish (write_8 status (write_8 btag (write_8 success w))) in
    select prev (
      on_tmc
        (λ t. record t {
          rstb_tag = btag;
          rstb_status = status;
          handle_rstb = true;
          handle_read_status = false;
        })
        v)

-- The gate of `EVENT_USB_Device_ControlRequest`.
abbrev pub is_addressed : Request → Bool
is_addressed r =
    (r.index == 0 && not (bit_and r.request_type 1 == 0))
    || ((r.index == in_ep || r.index == out_ep) && not (bit_and r.request_type 2 == 0))

module _ (e : Env) where
  -- `handle_control_Req_ReadStatusByte`
  unfoldable pub handle_read_status_byte : M (Unit {0})
  unfolding gpib_ren timeout_start answer_status_byte
  handle_read_status_byte = do
    prev ← gets (λ w. w.usb.selected)
    modify (select control_ep)
    btag ← gets (λ w. w.tmc.read_status_tag)
    gpib_ren true
    timeout_start 150000
    addr ← gets (λ w. w.gpib_addr)
    status ← gpib_read_status_byte e addr is_timedout
    srq ← gets (λ w. w.tmc.srq_status)
    modify (on_tmc (λ t. record t { srq_status = 0 }))
    modify (answer_status_byte prev btag (bit_or status srq))

  -- Req_ReadStatusByte
  unfoldable pub read_status_byte : ℕ → M (Unit {0})
  unfolding handle_read_status_byte
  read_status_byte value = do
    modify clear_setup_stage
    modify (on_tmc (λ t. record t { read_status_tag = value % 256 }))
    busy ← gets (λ w. w.tmc.write_busy)
    if busy
        then modify (on_tmc (λ t. record t { handle_read_status = true }))
        else handle_read_status_byte

  -- The switch on bRequest.
  unfoldable pub dispatch_request : Request → M (Unit {0})
  unfolding initiate_abort_bulk_out check_abort_bulk_out initiate_abort_bulk_in check_abort_bulk_in
      initiate_clear check_clear get_capabilities indicator_pulse ren_control local_lockout
      go_to_local read_status_byte
  dispatch_request r =
      if r.request == 0x80
      then read_status_byte r.value
      else if r.request == 0x01
      then when (r.request_type == class_endpoint) (modify (initiate_abort_bulk_out r.value))
      else if r.request == 0x02
      then when (r.request_type == class_endpoint) (modify check_abort_bulk_out)
      else if r.request == 0x03
      then when (r.request_type == class_endpoint) (modify (initiate_abort_bulk_in r.value))
      else if r.request == 0x04
      then when (r.request_type == class_endpoint) (modify check_abort_bulk_in)
      else if r.request == 0x05
      then when (r.request_type == class_interface) (modify initiate_clear)
      else if r.request == 0x06
      then when (r.request_type == class_interface) (modify check_clear)
      else if r.request == 0x07
      then when (r.request_type == class_interface) (modify get_capabilities)
      else if r.request == 0x40
      then modify indicator_pulse
      else if r.request == 160
      then modify (ren_control r.value)
      else if r.request == 162
      then modify local_lockout
      else if r.request == 161
      then modify go_to_local
      else skip

  -- `EVENT_USB_Device_ControlRequest`
  unfoldable pub control_request : Request → M (Unit {0})
  unfolding dispatch_request
  control_request r = when (is_addressed r) (dispatch_request r)

  -- What the library does with a request that arrived, if any: it selects the control endpoint for
  -- the time of the event.
  abbrev pub with_request : Option Request → M (Unit {0})
  with_request none = skip
  with_request (some r) = do
    prev ← gets (λ w. w.usb.selected)
    modify (select control_ep)
    control_request r
    modify (select prev)

  -- `USB_USBTask`
  unfoldable pub usb_task : M (Unit {0})
  unfolding control_request
  usb_task w = with_request (e.control w.now) (record w { now = w.now + 1 })

  -- `tmc_gpib_write_timedout` and `tmc_gpib_read_timedout`
  unfoldable pub tmc_timedout : M Bool
  unfolding usb_task
  tmc_timedout = do usb_task; gets (λ w. w.tmc.out_reset || w.tmc.in_reset)
