-- ===== src/Transfer/Task.antt =====
-- `TMC_Task` of TestAndMeasurement.c, with one function for each of its parts.
pub mod Served
pub mod Steps
pub mod Returned
use usb_gpib.Base.{
  min, ℕ, Bool, length, true, false, not, List, [], ◌∷◌, Option, some, none, ◌+◌, ◌-◌, ◌%◌, ◌&&◌,
  ◌==◌, leb, bit_and, bit_or, take, drop, if◌then◌else◌,
}
use usb_gpib.State.{Env, Response, write_stream, clear_in, clear_out, stall}
use usb_gpib.Exec.{M, pure, modify, gets, skip, when, ◌>>=◌, ◌>>◌}
use usb_gpib.Endpoint.{
  on_tmc, show, select, notification_ep, in_ep, out_ep, io_size, is_out_received,
}
use usb_gpib.Gpib.Lines.{gpib_ren, read_pin}
use usb_gpib.Gpib.Timeouts.{timeout_start, is_timedout}
use usb_gpib.Gpib.Commands.{
  gpib_read_status_byte, gpib_local_lockout, gpib_goto_local, gpib_trigger,
}
use usb_gpib.Parser.Commands.{gpib_set_readtermination}
use usb_gpib.Control.{tmc_timedout}
use usb_gpib.Transfer.{process_sent_message, get_next_message}
use usb_gpib.Transfer.Stream.{write_stream_quick}
use usb_gpib.Transfer.Header.{Header, header_size, read_tmc_header, write_tmc_header}
use usb_gpib.Transfer.Reset.{tmc_resetstates, serve_sdc, end_task}

-- `sizeof(readbuffer)`
abbrev pub readbuffer_size : ℕ
readbuffer_size = 1012

-- `gpib_enable_readterminator`
unfoldable pub gpib_enable_readterminator : Bool → M (Unit {0})
gpib_enable_readterminator enable =
    modify (λ w. record w { gpib = record (w.gpib) { terminator_enabled = enable } })

-- The bytes that are sent, and what stays of the response: nothing, where it was sent to its end.
abbrev pub part_if : Bool → Response → ℕ → ℕ → List ℕ × Response
part_if true r n rpos = (take n (drop r.rpos r.buffer), record r { len = 0; rpos = 0 })
part_if false r n rpos = (take n (drop r.rpos r.buffer), record r { rpos = rpos })

-- How many bytes are sent: those that are left, or as many as the host asks for.
abbrev pub part_size : ℕ → Response → ℕ
part_size size r = min size ((r.len + 65536 - r.rpos) % 65536)

-- The part of the internal response that is sent next, with what stays of it.
unfoldable pub next_response : ℕ → Response → List ℕ × Response
next_response size r =
    let rpos = (r.rpos + part_size size r) % 256 in
    part_if (leb r.len rpos) r (part_size size r) rpos

module _ (e : Env) where
  -- Two bytes on the interrupt endpoint.
  unfoldable pub notify : ℕ → ℕ → M (Unit {0})
  notify a b = do
    modify (select notification_ep)
    modify (show (λ ep. write_stream ep (a ∷ b ∷ [])))
    modify (show clear_in)

  -- `if (gpib_is_srq_active())`
  unfoldable pub serve_srq : M (Unit {0})
  unfolding notify timeout_start
  serve_srq = do
    active ← read_pin e (λ s. not s.srq)
    when active (do
      timeout_start 50000
      addr ← gets (λ w. w.gpib_addr)
      status ← gpib_read_status_byte e addr is_timedout
      let reg = bit_or status 0x40
      modify (on_tmc (λ t. record t { srq_status = bit_or t.srq_status (bit_and reg 0xbf) }))
      notify 0x81 reg)

  -- `if (handleLocalLockout)`
  unfoldable pub serve_lockout : M (Unit {0})
  unfolding timeout_start
  serve_lockout = do
    asked ← gets (λ w. w.tmc.handle_local_lockout)
    when asked (do
      timeout_start 50000
      t ← gpib_local_lockout e is_timedout
      modify (on_tmc (λ t. record t { handle_local_lockout = false })))

  -- `if (TMC_LastMessageComplete && TMC_InLastMessageComplete)`
  unfoldable pub serve_local : M (Unit {0})
  unfolding timeout_start gpib_ren
  serve_local = do
    complete ← gets (λ w. w.tmc.last_complete && w.tmc.in_complete)
    when complete (do
      modify (select out_ep)
      received ← is_out_received e
      when (not received) (do
        local ← gets (λ w. w.tmc.handle_go_to_local)
        when local (do
          timeout_start 50000
          addr ← gets (λ w. w.gpib_addr)
          t ← gpib_goto_local e addr is_timedout
          modify (on_tmc (λ t. record t { handle_go_to_local = false })))
        ren ← gets (λ w. w.tmc.handle_ren_control)
        when (not (ren == 0)) (do
          gpib_ren (not (bit_and ren 1 == 0))
          modify (on_tmc (λ t. record t { handle_ren_control = 0 })))))

  -- TMC_MESSAGEID_TRIGGER
  unfoldable pub message_trigger : M (Unit {0})
  unfolding timeout_start gpib_ren
  message_trigger = do
    gpib_ren true
    timeout_start 50000
    addr ← gets (λ w. w.gpib_addr)
    t ← gpib_trigger e addr is_timedout
    modify (show clear_out)

  -- TMC_MESSAGEID_DEV_DEP_MSG_OUT
  unfoldable pub message_out : Header → M (Unit {0})
  unfolding process_sent_message tmc_timedout
  message_out h = do
    let curlen = min (io_size - header_size) h.transfer_size
    let left = h.transfer_size - curlen
    let eom = not (h.last_message == 0)
    let last = left == 0
    modify (on_tmc (λ t. record t { remaining = left; eom = eom }))
    first ← gets (λ w. w.tmc.last_complete)
    process_sent_message e curlen first last (eom && last) (tmc_timedout e)
    modify (select out_ep)
    modify (show clear_out)
    modify (on_tmc (λ t. record t { last_complete = last }))

  -- The bytes of the answer to TMC_MESSAGEID_DEV_DEP_MSG_IN, and `lastmessage`.
  unfoldable pub answer_bytes : ℕ → M (List ℕ × Bool)
  unfolding next_response get_next_message tmc_timedout
  answer_bytes size = do
    r ← gets (λ w. w.response)
    if not (r.len == 0)
        then (do
          modify (λ w. record w { response = (next_response size r).1 })
          pure ((next_response size r).0, (next_response size r).1.len == 0))
        else (do
          first ← gets (λ w. w.tmc.in_complete)
          get_next_message e (min readbuffer_size size) first (tmc_timedout e))

  -- `if (!IsTMCBulkINReset)`
  unfoldable pub unless_reset : M ℕ → M (Unit {0})
  unless_reset m = do reset ← gets (λ w. w.tmc.in_reset); when (not reset) (m >> skip)

  -- A packet of length zero, where the last one was as long as the endpoint.
  unfoldable pub close_packets : ℕ → M (Unit {0})
  close_packets size = do
    modify (select in_ep)
    modify (show clear_in)
    when ((size + header_size) % io_size == 0)
        (do modify (λ w. record w { now = w.now + 1 }); modify (show clear_in))

  -- The read termination that the request carries.
  unfoldable pub set_read_termination : Header → M (Unit {0})
  unfolding gpib_set_readtermination gpib_enable_readterminator
  set_read_termination h =
      if bit_and h.last_message 2 == 0
      then gpib_enable_readterminator false
      else (gpib_set_readtermination h.term_char >> gpib_enable_readterminator true)

  -- TMC_MESSAGEID_DEV_DEP_MSG_IN
  unfoldable pub message_in : Header → M (Unit {0})
  unfolding set_read_termination answer_bytes unless_reset write_tmc_header write_stream_quick
      close_packets tmc_resetstates
  message_in h = do
    modify (show clear_out)
    set_read_termination h
    (bytes, last) ← answer_bytes h.transfer_size
    modify (on_tmc (λ t. record t { in_complete = last }))
    let size = length bytes
    unless_reset (
        write_tmc_header e
          (record h { transfer_size = size; last_message = if last then 1 else 0 }))
    unless_reset (write_stream_quick e bytes (io_size - header_size) io_size)
    close_packets size
    reset ← gets (λ w. w.tmc.in_reset)
    when reset tmc_resetstates

  -- `if (ReadTMCHeader(&MessageHeader))`
  unfoldable pub serve_header : Option Header → M (Unit {0})
  unfolding message_trigger message_out message_in
  serve_header none = skip
  serve_header (some h) =
      if h.message_id == 0x80
      then message_trigger
      else if h.message_id == 0x01
      then message_out h
      else if h.message_id == 0x02
      then message_in h
      else modify (show stall)

  -- The branch of `TMC_Task` between two messages.
  unfoldable pub between_messages : M (Unit {0})
  unfolding serve_srq serve_sdc serve_lockout serve_local read_tmc_header serve_header
  between_messages = do
    serve_srq
    serve_sdc e
    serve_lockout
    serve_local
    h ← read_tmc_header e
    serve_header h

  -- The branch of `TMC_Task` within a message to the device.
  unfoldable pub within_message : M (Unit {0})
  unfolding process_sent_message tmc_timedout
  within_message = do
    modify (select out_ep)
    received ← is_out_received e
    when received (do
      left ← gets (λ w. w.tmc.remaining)
      let curlen = min left io_size
      let last = left - curlen == 0
      modify (
          on_tmc (λ t. record t {
            last_transfer_length = 0;
            remaining = left - curlen;
            last_complete = last;
          }))
      eom ← gets (λ w. w.tmc.eom)
      process_sent_message e curlen false last (eom && last) (tmc_timedout e)
      modify (show clear_out))

  -- `if (handleRSTB)`
  unfoldable pub serve_rstb : M (Unit {0})
  unfolding notify
  serve_rstb = do
    asked ← gets (λ w. w.tmc.handle_rstb)
    when asked (do
      modify (on_tmc (λ t. record t { handle_rstb = false }))
      tag ← gets (λ w. w.tmc.rstb_tag)
      status ← gets (λ w. w.tmc.rstb_status)
      notify (bit_or tag 0x80) status)

  -- `TMC_Task`
  unfoldable pub tmc_task : M (Unit {0})
  unfolding between_messages within_message serve_rstb end_task
  tmc_task = do
    configured ← (λ w. pure (e.configured w.now) w)
    when configured (do
      left ← gets (λ w. w.tmc.remaining)
      if left == 0 then between_messages else within_message
      serve_rstb
      end_task e)
