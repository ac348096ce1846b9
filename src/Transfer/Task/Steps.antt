-- ===== src/Transfer/Task/Steps.antt =====
-- The steps of `TMC_Task` that carry no message return.
use usb_gpib.Base.{
  ℕ, Bool, true, false, not, ◌≡◌, refl, inl, inr, List, ◌+◌, ◌-◌, ◌%◌, ◌≤◌, ◌<◌, ◌||◌, ◌==◌, length,
  bit_and, if◌then◌else◌, Bool-cases, arith,
}
use usb_gpib.State.{World, Env}
use usb_gpib.Exec.{
  M, skip, ◌>>◌, Returns, Returns-bind, Returns-weaken, Returning, Returning-bind, Returning-when,
}
use usb_gpib.Endpoint.{select, in_ep, io_size}
use usb_gpib.Gpib.Lines.{gpib_ren, gpib_interface_clear}
use usb_gpib.Gpib.Timeouts.{timeout_start, is_timedout, main_countdown, countdown-IsFinite}
use usb_gpib.Gpib.Commands.{gpib_trigger}
use usb_gpib.Gpib.Commands.Total.{trigger-Total}
use usb_gpib.Parser.Commands.{gpib_set_readtermination}
use usb_gpib.Transfer.Stream.{write_stream_quick}
use usb_gpib.Transfer.Stream.Ready.{IsOpen, quick_stream-Returns, plain_stream-Returns}
use usb_gpib.Transfer.Header.{
  Header, header_size, header_bytes, read_tmc_header, read_header, write_tmc_header,
}
use usb_gpib.Transfer.Reset.{tmc_resetstates, serve_reset, end_task}
use usb_gpib.Transfer.Aborted.{reset-Served}
use usb_gpib.Transfer.Task.{
  readbuffer_size, unless_reset, close_packets, set_read_termination, gpib_enable_readterminator,
  notify, message_trigger, serve_rstb,
}
use usb_gpib.Transfer.Task.Served.{IsPlain, Stays}

-- One of two runs.
pub either :
    {A : Type 0} (Q : A → World → Type 0) (b : Bool) (m k : M A) (w : World)
    → Returns Q (m w)
    → Returns Q (k w)
    → Returns Q ((if b then m else k) w)
either Q true m k w h _ = h
either Q false m k w _ h = h

-- The flags of an abort are reset.
abbrev pub IsReset : World → Type 0
IsReset u = (u.tmc.in_reset ≡ false) × (u.tmc.out_reset ≡ false)

module _ (e : Env) (long : 150000 < e.polls) (opens : IsOpen e) where
  pub trigger-Returning : Returning (message_trigger e)
  unfolding message_trigger gpib_ren timeout_start is_timedout
  trigger-Returning w =
      Returns-bind _ (λ a u. Unit {0}) (gpib_trigger e w.gpib_addr is_timedout _) _
        (trigger-Total e (countdown-IsFinite main_countdown) w.gpib_addr _ (omega (arith, long)))
        λ t u h. tt

  pub header-Stays : Stays (read_tmc_header e)
  unfolding read_tmc_header read_header
  header-Stays w p = either (λ _ u. IsPlain u) (e.out_received w.now) _ _ _ p p

  pub header_out-Returning : (h : Header) → Returning (write_tmc_header e h)
  unfolding write_tmc_header
  header_out-Returning h w =
      plain_stream-Returns e opens
        (header_bytes
          (record h { tag = w.tmc.transfer_tag; inverse_tag = 255 - w.tmc.transfer_tag }))
        (select in_ep w) (omega (arith, long))

  pub reset-Returning : Returning tmc_resetstates
  unfolding tmc_resetstates gpib_interface_clear
  reset-Returning w = tt

  Returning-none :
      (w : World)
      → (w.tmc.out_reset || w.tmc.in_reset) ≡ false
      → Returns (λ _ u. Unit {0}) (serve_reset e w)
  unfolding serve_reset
  Returning-none w h = rw h tt

  pub end-Returns : (w : World) → Returns (λ _ u. IsReset u) (end_task e w)
  unfolding end_task
  end-Returns w =
      Returns-bind (λ _ u. Unit {0}) (λ _ u. IsReset u) (serve_reset e w) _ (served w)
        λ _ u _. (refl, refl)
    where
      short : 50000 < e.polls
      short = omega (arith, long)

      served : (w : World) → Returns (λ _ u. Unit {0}) (serve_reset e w)
      served w = elim (Bool-cases (w.tmc.out_reset || w.tmc.in_reset)) [
        | inl asked ↦
            Returns-weaken _ (λ _ u. Unit {0}) (serve_reset e w) (reset-Served e short w asked)
              λ _ u _. tt
        | inr none_asked ↦ Returning-none w none_asked
      ]

  pub rstb-Returning : Returning (serve_rstb e)
  unfolding serve_rstb notify
  rstb-Returning w = Returning-when w.tmc.handle_rstb _ (λ u. tt) w

  -- The bytes of an answer, in packets.
  pub send-Returning :
      (h : Header) (bytes : List ℕ)
      → length bytes ≤ readbuffer_size
      → Returning (write_stream_quick e bytes (io_size - header_size) io_size)
  send-Returning h bytes le w =
      quick_stream-Returns e opens bytes (io_size - header_size) io_size w (omega (arith, le, long))
        (omega arith) (omega arith)

  pub unless-Returning : (m : M ℕ) → Returning m → Returning (unless_reset e m)
  unfolding unless_reset
  unless-Returning m h w =
      Returning-when (not w.tmc.in_reset) (m >> skip) (Returning-bind m _ h λ _ u. tt) w

  pub packets-Returning : (size : ℕ) → Returning (close_packets e size)
  unfolding close_packets
  packets-Returning size w = Returning-when ((size + header_size) % io_size == 0) _ (λ u. tt) _

  pub termination-Returns :
      (h : Header) (w : World) → IsPlain w → Returns (λ _ u. IsPlain u) (set_read_termination e h w)
  unfolding set_read_termination gpib_set_readtermination gpib_enable_readterminator
  termination-Returns h w p = either (λ _ u. IsPlain u) (bit_and h.last_message 2 == 0) _ _ w p p
