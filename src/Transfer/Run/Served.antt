-- ===== src/Transfer/Run/Served.antt =====
-- The parts of `TMC_Task` that leave the counters of the messages alone.
use usb_gpib.Base.{ℕ, false, not, refl, ◌+◌, ◌-◌, ◌%◌, ◌&&◌, ◌==◌, bit_and}
use usb_gpib.State.{World, Env}
use usb_gpib.Exec.{M, modify, gets, when, ◌>>=◌, ◌>>◌, Ensures, Ensures-weaken}
use usb_gpib.Endpoint.{on_tmc, select, in_ep, io_size}
use usb_gpib.Gpib.Lines.{read_pin, gpib_ren}
use usb_gpib.Gpib.Timeouts.{timeout_start, is_timedout, main_countdown}
use usb_gpib.Gpib.Handshake.Apart.{
  Apart, Apart-refl, Apart-trans, Keeps, Keeps-bind, Keeps-when, Keeps-if, countdown-Keeps,
}
use usb_gpib.Gpib.Commands.{
  gpib_read_status_byte, gpib_local_lockout, gpib_goto_local, gpib_sdc, gpib_trigger,
}
use usb_gpib.Gpib.Commands.Apart.{
  read_status_byte-Keeps, local_lockout-Keeps, goto_local-Keeps, sdc-Keeps, trigger-Keeps,
}
use usb_gpib.Parser.Commands.{gpib_set_readtermination}
use usb_gpib.Transfer.Header.{
  Header, header_size, header_bytes, read_tmc_header, read_header, write_tmc_header,
}
use usb_gpib.Transfer.Reset.{serve_sdc}
use usb_gpib.Transfer.Stream.Apart.{plain_stream-Keeps}
use usb_gpib.Transfer.Task.{
  notify, serve_srq, serve_lockout, serve_local, message_trigger, set_read_termination,
  gpib_enable_readterminator, close_packets, serve_rstb,
}
use usb_gpib.Transfer.Run.Settled.{counted}

module _ (e : Env) where
  timed : Keeps counted is_timedout
  timed = countdown-Keeps counted main_countdown

  -- A run from a state that differs in other things.
  begun :
      {A : Type 0} (m : M A) (w v : World)
      → Apart counted w v
      → Keeps counted m
      → Ensures (λ a u. Apart counted w u) (m v)
  begun m w v a h =
      Ensures-weaken (λ b u. Apart counted v u) (λ b u. Apart counted w u) (m v) (h v)
        λ b u k. Apart-trans counted w v u a k

  pub srq-Keeps : Keeps counted (serve_srq e)
  unfolding serve_srq notify timeout_start read_pin
  srq-Keeps w =
      Keeps-when counted (not (e.pins w.now).srq) _
        (λ v.
          Keeps-bind counted (gpib_read_status_byte e v.gpib_addr is_timedout) _
            (read_status_byte-Keeps counted e is_timedout timed v.gpib_addr)
            (λ _ u. ((refl, refl, refl, λ h. h), tt, refl, refl, refl, refl, refl, λ low. low))
            (record v { timeouts = record (v.timeouts) { main = 50000 } }))
        _

  pub lockout-Keeps : Keeps counted (serve_lockout e)
  unfolding serve_lockout timeout_start
  lockout-Keeps w =
      Keeps-when counted w.tmc.handle_local_lockout _
        (λ v.
          Keeps-bind counted (gpib_local_lockout e is_timedout) _
            (local_lockout-Keeps counted e is_timedout timed)
            (λ _ u. ((refl, refl, refl, λ h. h), tt, refl, refl, refl, refl, refl, λ low. low))
            (record v { timeouts = record (v.timeouts) { main = 50000 } }))
        w

  pub sdc_flag-Keeps : Keeps counted (serve_sdc e)
  unfolding serve_sdc timeout_start gpib_ren
  sdc_flag-Keeps w =
      Keeps-when counted w.tmc.handle_sdc _
        (λ v.
          Keeps-bind counted (gpib_sdc e v.gpib_addr is_timedout) _
            (sdc-Keeps counted e is_timedout timed v.gpib_addr)
            (λ _ u. ((refl, refl, refl, λ h. h), tt, refl, refl, refl, refl, refl, λ low. low)) _)
        w

  to_local-Keeps : Keeps counted (do
    local ← gets (λ w. w.tmc.handle_go_to_local)
    when local (do
      timeout_start 50000
      addr ← gets (λ w. w.gpib_addr)
      t ← gpib_goto_local e addr is_timedout
      modify (on_tmc (λ t. record t { handle_go_to_local = false }))))
  unfolding timeout_start
  to_local-Keeps w =
      Keeps-when counted w.tmc.handle_go_to_local _
        (λ v.
          Keeps-bind counted (gpib_goto_local e v.gpib_addr is_timedout) _
            (goto_local-Keeps counted e is_timedout timed v.gpib_addr)
            (λ _ u. ((refl, refl, refl, λ h. h), tt, refl, refl, refl, refl, refl, λ low. low))
            (record v { timeouts = record (v.timeouts) { main = 50000 } }))
        w

  ren-Keeps : Keeps counted (do
    ren ← gets (λ w. w.tmc.handle_ren_control)
    when (not (ren == 0)) (do
      gpib_ren (not (bit_and ren 1 == 0))
      modify (on_tmc (λ t. record t { handle_ren_control = 0 }))))
  unfolding gpib_ren
  ren-Keeps w =
      Keeps-when counted (not (w.tmc.handle_ren_control == 0)) _
        (λ u. ((refl, refl, refl, λ h. h), tt, refl, refl, refl, refl, refl, λ low. low)) w

  pub local-Keeps : Keeps counted (serve_local e)
  unfolding serve_local timeout_start gpib_ren
  local-Keeps w =
      Keeps-when counted (w.tmc.last_complete && w.tmc.in_complete) _
        (λ v.
          Keeps-when counted (not (e.out_received v.now)) _
            (λ x. Keeps-bind counted _ _ to_local-Keeps (λ _. ren-Keeps) x) _)
        w

  pub header-Keeps : Keeps counted (read_tmc_header e)
  unfolding read_tmc_header read_header
  header-Keeps w =
      Keeps-if counted (e.out_received w.now) _ _
        (λ u. ((refl, refl, refl, λ h. h), tt, refl, refl, refl, refl, refl, λ low. low))
        (λ u. Apart-refl counted u) _

  pub write_header-Keeps : (h : Header) → Keeps counted (write_tmc_header e h)
  unfolding write_tmc_header
  write_header-Keeps h w =
      plain_stream-Keeps counted (λ b b'. tt) e
        (header_bytes
          (record h { tag = w.tmc.transfer_tag; inverse_tag = 255 - w.tmc.transfer_tag }))
        (select in_ep w)

  pub trigger_message-Keeps : Keeps counted (message_trigger e)
  unfolding message_trigger gpib_ren timeout_start
  trigger_message-Keeps w =
      Keeps-bind counted (gpib_trigger e w.gpib_addr is_timedout) _
        (trigger-Keeps counted e is_timedout timed w.gpib_addr)
        (λ _ u. ((refl, refl, refl, λ h. h), tt, refl, refl, refl, refl, refl, λ low. low)) _

  pub termination-Keeps : (h : Header) → Keeps counted (set_read_termination e h)
  unfolding set_read_termination gpib_set_readtermination gpib_enable_readterminator
  termination-Keeps h =
      Keeps-if counted (bit_and h.last_message 2 == 0) _ _ (λ w. Apart-refl counted w)
        λ w. Apart-refl counted w

  pub packets-Keeps : (size : ℕ) → Keeps counted (close_packets e size)
  unfolding close_packets
  packets-Keeps size w =
      Keeps-when counted ((size + header_size) % io_size == 0) _ (λ u. Apart-refl counted u) _

  pub rstb-Keeps : Keeps counted (serve_rstb e)
  unfolding serve_rstb notify
  rstb-Keeps w =
      Keeps-when counted w.tmc.handle_rstb _
        (λ u. ((refl, refl, refl, λ h. h), tt, refl, refl, refl, refl, refl, λ low. low)) w
