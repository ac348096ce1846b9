-- ===== src/Transfer/Task/Returned.antt =====
-- `TMC_Task` returns, whatever the devices on the bus do, where the host does not give up aborting.
use usb_gpib.Base.{
  ℕ, zero, suc, Bool, true, false, not, ◌≡◌, refl, ◌⊎◌, List, [], ◌∷◌, Option, some, none, ◌+◌, ◌-◌,
  ◌%◌, ◌≤◌, ◌<◌, ◌&&◌, ◌==◌, length, take, drop, length-drop, min, leb, if◌then◌else◌, arith,
}
use usb_gpib.State.{World, Env, clear_out}
use usb_gpib.Exec.{
  Returns, Returns-bind, Returns-weaken, Returns-Ensures, Returning, Returning-bind, Returning-when,
}
use usb_gpib.Endpoint.{on_tmc, show, io_size}
use usb_gpib.Gpib.Handshake.Paced.{Coming}
use usb_gpib.Control.{tmc_timedout}
use usb_gpib.Control.Watch.{IsOther, tmc_timedout-Keeps}
use usb_gpib.Control.Aborting.{
  IsAbort, longest_wait, tmc_timedout-IsFinite, tmc_timedout-followed, tmc_timedout-beat,
}
use usb_gpib.Transfer.{process_sent_message, get_next_message}
use usb_gpib.Transfer.Total.{message-Returns, part-Returning}
use usb_gpib.Transfer.Received.{get_next_message-length}
use usb_gpib.Transfer.Stream.{write_stream_quick}
use usb_gpib.Transfer.Stream.Ready.{IsOpen}
use usb_gpib.Transfer.Header.{Header, header_size, read_tmc_header, write_tmc_header}
use usb_gpib.Transfer.Reset.{tmc_resetstates, serve_sdc}
use usb_gpib.Transfer.Task.{
  readbuffer_size, next_response, part_if, part_size, answer_bytes, unless_reset, close_packets,
  set_read_termination, serve_srq, serve_lockout, serve_local, message_out, message_in,
  serve_header, between_messages, within_message, serve_rstb, tmc_task,
}
use usb_gpib.Transfer.Task.Served.{IsPlain, srq-Stays, sdc-Stays, lockout-Stays, local-Stays}
use usb_gpib.Transfer.Task.Steps.{
  either, IsReset, trigger-Returning, header-Stays, header_out-Returning, reset-Returning,
  end-Returns, rstb-Returning, send-Returning, unless-Returning, packets-Returning,
  termination-Returns,
}

length-take_le : (n : ℕ) (xs : List ℕ) → length (take n xs) ≤ length xs
length-take_le zero xs = omega arith
length-take_le (suc n) [] = omega arith
length-take_le (suc n) (x ∷ xs) = omega (arith, length-take_le n xs)

-- How many bytes an answer has.
abbrev Fits : List ℕ × Bool → World → Type 0
Fits r u = length r.0 ≤ readbuffer_size

module _ (e : Env) (long : 150000 < e.polls) (opens : IsOpen e)
    (others : (n : ℕ) → IsOther (e.control n)) (last pace : ℕ)
    (aborts : (n : ℕ) → last ≤ n → IsAbort (e.control n)) (beat : (n : ℕ) → Coming e pace n)
    (fits : longest_wait (last + 1) pace + pace < e.polls) where
  gather-Returns :
      (maxlen : ℕ) (first : Bool) (w : World)
      → Returns (λ r u. length r.0 ≤ maxlen) (get_next_message e maxlen first (tmc_timedout e) w)
  gather-Returns maxlen first w =
      Returns-weaken (λ r u. (length r.0 ≤ maxlen) × ((r.1 ≡ true) ⊎ (length r.0 ≡ maxlen)))
        (λ r u. length r.0 ≤ maxlen) (get_next_message e maxlen first (tmc_timedout e) w)
        (Returns-Ensures (λ r u. Unit {0}) _ (get_next_message e maxlen first (tmc_timedout e) w)
          (part-Returning e long (tmc_timedout-IsFinite e others last pace aborts)
            (tmc_timedout-followed e others last pace aborts fits)
            (tmc_timedout-beat e others last pace aborts beat) maxlen first w)
          (get_next_message-length e (tmc_timedout e) (tmc_timedout-Keeps e others) maxlen first w))
        λ r u h. h.0

  sent-Returns :
      (len : ℕ) (first last_ eom : Bool) (w : World)
      → (first && w.tmc.parameter_set && e.out_bytes w.usb.taken == b'!') ≡ false
      → Returns (λ _ u. Unit {0}) (process_sent_message e len first last_ eom (tmc_timedout e) w)
  sent-Returns =
      message-Returns e long (tmc_timedout-IsFinite e others last pace aborts)
        (tmc_timedout-followed e others last pace aborts fits)
        (tmc_timedout-beat e others last pace aborts beat)

  answer-Returns : (size : ℕ) (w : World) → IsPlain w → Returns Fits (answer_bytes e size w)
  unfolding answer_bytes next_response
  answer-Returns size w p =
      either Fits (not (w.response.len == 0)) _ _ w
        (part_fits (leb w.response.len ((w.response.rpos + part_size size w.response) % 256)))
        (Returns-weaken (λ r u. length r.0 ≤ min readbuffer_size size) Fits
          (get_next_message e (min readbuffer_size size) w.tmc.in_complete (tmc_timedout e) w)
          (gather-Returns (min readbuffer_size size) w.tmc.in_complete w)
          λ r u le. room size (length r.0) le)
    where
      room : (size n : ℕ) → n ≤ min readbuffer_size size → n ≤ readbuffer_size
      room size n le = ground (arith, le)

      part_fits :
          (done : Bool)
          → length
              (part_if done w.response
                (part_size size w.response)
                ((w.response.rpos + part_size size w.response) % 256)).0
            ≤ readbuffer_size
      part_fits true = omega (
        arith,
        p.1,
        length-take_le (part_size size w.response) (drop w.response.rpos w.response.buffer),
        length-drop w.response.rpos w.response.buffer,
      )
      part_fits false = omega (
        arith,
        p.1,
        length-take_le (part_size size w.response) (drop w.response.rpos w.response.buffer),
        length-drop w.response.rpos w.response.buffer,
      )

  in-Returns : (h : Header) (w : World) → IsPlain w → Returns (λ _ u. Unit {0}) (message_in e h w)
  unfolding message_in
  in-Returns h w p =
      Returns-bind (λ _ u. IsPlain u) (λ _ u. Unit {0})
        (set_read_termination e h (show clear_out w)) _
        (termination-Returns e long opens h (show clear_out w) p)
        λ _ u q.
          Returns-bind Fits (λ _ u. Unit {0}) (answer_bytes e h.transfer_size u) _
            (answer-Returns h.transfer_size u q)
            λ r v le.
              let g : Header = record h {
                transfer_size = length r.0;
                last_message = if r.1 then 1 else 0;
              } in
              Returning-bind (unless_reset e (write_tmc_header e g)) _
                (unless-Returning e long opens (write_tmc_header e g)
                  (header_out-Returning e long opens g))
                (λ _.
                  Returning-bind
                    (unless_reset e (write_stream_quick e r.0 (io_size - header_size) io_size)) _
                    (unless-Returning e long opens
                      (write_stream_quick e r.0 (io_size - header_size) io_size)
                      (send-Returning e long opens h r.0 le))
                    λ _.
                      Returning-bind (close_packets e (length r.0)) _
                        (packets-Returning e long opens (length r.0))
                        λ _ x.
                          Returning-when x.tmc.in_reset tmc_resetstates
                            (reset-Returning e long opens) x)
                _

  out-Returns :
      (h : Header) (w : World)
      → w.tmc.parameter_set ≡ false
      → Returns (λ _ u. Unit {0}) (message_out e h w)
  unfolding message_out
  out-Returns h w plain =
      let curlen = min (io_size - header_size) h.transfer_size in
      let left = h.transfer_size - curlen in
      let eom = not (h.last_message == 0) in
      let v = on_tmc (λ t. record t { remaining = left; eom = eom }) w in
      Returns-bind (λ _ u. Unit {0}) (λ _ u. Unit {0})
        (process_sent_message e curlen w.tmc.last_complete (left == 0) (eom && left == 0)
          (tmc_timedout e) v)
        _
        (sent-Returns curlen w.tmc.last_complete (left == 0) (eom && left == 0) v
          (no_command w.tmc.last_complete w.tmc.parameter_set _ plain))
        λ _ u _. tt
    where
      no_command : (a b c : Bool) → b ≡ false → (a && b && c) ≡ false
      no_command a b c h = ground arith

  header-Returns :
      (h : Option Header) (w : World) → IsPlain w → Returns (λ _ u. Unit {0}) (serve_header e h w)
  unfolding serve_header
  header-Returns none w p = tt
  header-Returns (some h) w p =
      either (λ _ u. Unit {0}) (h.message_id == 0x80) _ _ w (trigger-Returning e long opens w)
        (either (λ _ u. Unit {0}) (h.message_id == 0x01) _ _ w (out-Returns h w p.0)
          (either (λ _ u. Unit {0}) (h.message_id == 0x02) _ _ w (in-Returns h w p) tt))

  between-Returns : (w : World) → IsPlain w → Returns (λ _ u. Unit {0}) (between_messages e w)
  unfolding between_messages
  between-Returns w p =
      Returns-bind (λ _ u. IsPlain u) (λ _ u. Unit {0}) (serve_srq e w) _ (srq-Stays e long w p)
        λ _ u q.
          Returns-bind (λ _ u. IsPlain u) (λ _ u. Unit {0}) (serve_sdc e u) _ (sdc-Stays e long u q)
            λ _ v r.
              Returns-bind (λ _ u. IsPlain u) (λ _ u. Unit {0}) (serve_lockout e v) _
                (lockout-Stays e long v r)
                λ _ x s.
                  Returns-bind (λ _ u. IsPlain u) (λ _ u. Unit {0}) (serve_local e x) _
                    (local-Stays e long x s)
                    λ _ y t.
                      Returns-bind (λ _ u. IsPlain u) (λ _ u. Unit {0}) (read_tmc_header e y) _
                        (header-Stays e long opens y t) λ h z. header-Returns h z

  within-Returning : Returning (within_message e)
  unfolding within_message
  within-Returning w =
      Returning-when (e.out_received w.now) _
        (λ u.
          let curlen = min u.tmc.remaining io_size in
          let last_ = u.tmc.remaining - curlen == 0 in
          let v =
            on_tmc
              (λ t. record t {
                last_transfer_length = 0;
                remaining = u.tmc.remaining - curlen;
                last_complete = last_;
              })
              u in
          Returns-bind (λ _ u. Unit {0}) (λ _ u. Unit {0})
            (process_sent_message e curlen false last_ (u.tmc.eom && last_) (tmc_timedout e) v) _
            (sent-Returns curlen false last_ (u.tmc.eom && last_) v refl) λ _ x _. tt)
        _

  -- Where waits are followed for long enough: whatever the devices on the bus do, `TMC_Task` returns, with
  -- no abort flag set, provided that from some moment on the host asks for an abort of a bulk transfer
  -- whenever control requests are served, and not for the status byte; that the timer interrupt keeps
  -- coming; that an endpoint takes bytes after a wait without an error; and that the next message is no
  -- internal command, and the response to one has at most eight bytes.
  pub tmc_task-Returns :
      (w : World)
      → e.configured w.now ≡ true
      → w.tmc.parameter_set ≡ false
      → length w.response.buffer ≤ 8
      → Returns (λ _ u. IsReset u) (tmc_task e w)
  unfolding tmc_task
  tmc_task-Returns w configured plain small = rw configured (
      Returns-bind (λ _ u. Unit {0}) (λ _ u. IsReset u)
        ((if w.tmc.remaining == 0 then between_messages e else within_message e) w) _
        (either (λ _ u. Unit {0}) (w.tmc.remaining == 0) _ _ w (between-Returns w (plain, small))
          (within-Returning w))
        λ _ u _.
          Returns-bind (λ _ u. Unit {0}) (λ _ u. IsReset u) (serve_rstb e u) _
            (rstb-Returning e long opens u) λ _ v _. end-Returns e long opens v)
