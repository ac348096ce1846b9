-- ===== src/Transfer.antt =====
-- The bulk transfers of SW/TestAndMeasurement/TestAndMeasurement.c: messages to the bus and from it.
pub mod Stream
pub mod Header
pub mod Reset
pub mod Cleared
pub mod Aborted
pub mod Agree
pub mod Carried
pub mod Response
pub mod Total
pub mod Apart
pub mod Received
pub mod Sent
pub mod Delivered
pub mod Interrupted
pub mod Gathered
pub mod Run
pub mod Task
mod Tests
use usb_gpib.Base.{
  ℕ, zero, suc, Bool, true, false, not, List, [], ◌∷◌, ◌&&◌, ◌||◌, ◌==◌, ltb, if◌then◌else◌,
}
use usb_gpib.State.{World, Env}
use usb_gpib.Exec.{M, pure, modify, gets, skip, when, unless, ◌>>=◌, ◌>>◌}
use usb_gpib.Endpoint.{on_tmc, endpoint_read}
use usb_gpib.Parser.Message.{process_internal_command}
use usb_gpib.Gpib.Lines.{on_lines, set_led, gpib_ren}
use usb_gpib.Gpib.Handshake.{gpib_readdat_quick, gpib_writedat_quick}
use usb_gpib.Gpib.Commands.{gpib_make_listener, gpib_make_talker, gpib_untalk_unlisten}
use usb_gpib.Control.{handle_read_status_byte}

module _ (e : Env) where
  -- The answer to a status request that came during a write: the bus is freed, the status is read
  -- and the device is made a listener again.
  unfoldable pub answer_pending : M Bool → M Bool
  unfolding handle_read_status_byte
  answer_pending f = do
    t ← gpib_untalk_unlisten e f
    handle_read_status_byte e
    addr ← gets (λ w. w.gpib_addr)
    gpib_make_listener e addr f

  abbrev is_pending : M Bool
  is_pending = gets (λ w. w.tmc.handle_read_status)

  -- The loop of `ProcessSentMessage`: the bytes left, the byte at hand, and `timedout`.
  unfoldable pub write_loop : ℕ → ℕ → Bool → Bool → M Bool → M Bool
  unfolding answer_pending endpoint_read
  write_loop zero dat eom timedout f = pure timedout
  write_loop (suc n) dat eom true f = pure true
  write_loop (suc n) dat eom false f = do
    pending ← is_pending
    ignored ← (if pending then answer_pending f else pure false)
    t ← gpib_writedat_quick e dat (n == 0 && eom) f false
    dat' ← (if n == 0 then pure dat else endpoint_read e)
    write_loop n dat' eom t f

  -- The branch of `ProcessSentMessage` for a message to the device; it returns `timedout`.
  unfoldable pub send_to_device : ℕ → ℕ → Bool → Bool → Bool → M Bool → M Bool
  unfolding gpib_ren write_loop answer_pending
  send_to_device len dat first last eom f = do
    gpib_ren true
    modify (on_lines (set_led false))
    addr ← gets (λ w. w.gpib_addr)
    t1 ← (if first then gpib_make_listener e addr f else pure false)
    pending ← is_pending
    t2 ← (if pending && not t1 then answer_pending f else pure t1)
    t3 ← write_loop len dat eom t2 f
    when (last && not t3) (gpib_untalk_unlisten e f >> skip)
    modify (on_lines (set_led true))
    pure t3

  -- The end of `ProcessSentMessage`, for a status request that came with the last bytes.
  unfoldable pub after_message : Bool → Bool → M Bool → M (Unit {0})
  unfolding handle_read_status_byte
  after_message last timedout f = do
    pending ← is_pending
    when (pending && not timedout) (do
      when (not last) (gpib_untalk_unlisten e f >> skip)
      handle_read_status_byte e
      addr ← gets (λ w. w.gpib_addr)
      when (not last) (gpib_make_listener e addr f >> skip))

  -- `ProcessSentMessage`
  unfoldable pub process_sent_message : ℕ → Bool → Bool → Bool → M Bool → M (Unit {0})
  unfolding endpoint_read process_internal_command send_to_device after_message
  process_sent_message len first last eom f = do
    modify (on_tmc (λ t. record t { write_busy = true }))
    dat ← endpoint_read e
    set ← gets (λ w. w.tmc.parameter_set)
    t ←
        if first && set && dat == b'!'
        then process_internal_command e len >> pure false
        else send_to_device len dat first last eom f
    modify (on_tmc (λ t. record t { parameter_set = false; write_busy = not last }))
    after_message last t f

  -- The loop of `GetNextMessage`: the room left in the buffer, `Eoi` and `timedout`; it returns the
  -- bytes, `Eoi` and `timedout`.
  unfoldable pub read_loop : ℕ → Bool → Bool → M Bool → M (List ℕ × Bool × Bool)
  read_loop zero eoi timedout f = pure ([], eoi, timedout)
  read_loop (suc n) true timedout f = pure ([], true, timedout)
  read_loop (suc n) false true f = pure ([], false, true)
  read_loop (suc n) false false f = do
    (c, eoi, timedout) ← gpib_readdat_quick e f false
    (cs, eoi', timedout') ← read_loop n eoi timedout f
    pure (c ∷ cs, eoi', timedout')

  -- `GetNextMessage`: the bytes, and `*pisLastMessage`.
  unfoldable pub get_next_message : ℕ → Bool → M Bool → M (List ℕ × Bool)
  unfolding gpib_ren read_loop
  get_next_message maxlen first f = do
    gpib_ren true
    modify (on_lines (set_led false))
    addr ← gets (λ w. w.gpib_addr)
    t ← (if first then gpib_make_talker e addr f else pure false)
    (data_, eoi, timedout) ← read_loop maxlen false t f
    when (eoi && not timedout) (gpib_untalk_unlisten e f >> skip)
    modify (on_lines (set_led true))
    pure (data_, eoi || timedout)
