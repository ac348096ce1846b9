-- ===== src/Transfer/Run/Task.antt =====
-- `TMC_Task`, where it returns, keeps the state of the main loop valid.
use usb_gpib.Base.{
  ℕ, false, not, refl, inl, Option, some, none, ◌-◌, ◌||◌, ◌==◌, length, if◌then◌else◌, arith,
}
use usb_gpib.State.{World, Env, Tmc, Serial, Usb, clear_out, abort_in, stall}
use usb_gpib.Exec.{M, modify, skip, ◌>>◌}
use usb_gpib.Endpoint.{on_tmc, show, select, in_ep, out_ep, io_size}
use usb_gpib.Gpib.Lines.{gpib_interface_clear}
use usb_gpib.Gpib.Handshake.Apart.{Keeps}
use usb_gpib.Transfer.Header.{Header, header_size, read_tmc_header, write_tmc_header}
use usb_gpib.Transfer.Reset.{serve_sdc, tmc_resetstates, serve_reset, end_task}
use usb_gpib.Transfer.Stream.{write_stream_quick}
use usb_gpib.Transfer.Stream.Apart.{quick_stream-Keeps}
use usb_gpib.Transfer.Task.{
  answer_bytes, unless_reset, close_packets, set_read_termination, serve_srq, serve_lockout,
  serve_local, message_trigger, message_out, message_in, serve_header, between_messages,
  within_message, serve_rstb, tmc_task,
}
use usb_gpib.Transfer.Run.Guards.{Guards, Guards-bind, Guards-when, Guards-if}
use usb_gpib.Transfer.Run.Settled.{counted}
use usb_gpib.Transfer.Run.Commands.{IsNoSetting}
use usb_gpib.Transfer.Run.Served.{
  srq-Keeps, sdc_flag-Keeps, lockout-Keeps, local-Keeps, header-Keeps, write_header-Keeps,
  trigger_message-Keeps, termination-Keeps, packets-Keeps, rstb-Keeps,
}
use usb_gpib.Transfer.Run.Parts.{
  IsSound, sound-Apart, Keeps-Guards, out-Guards, within-Guards, answer-Guards,
}

module _ (cell value : ℕ) (text : Serial) (other : IsNoSetting cell) (e : Env) where
  abbrev Sound : World → Type 0
  Sound = IsSound cell value text

  keeps : {A : Type 0} (m : M A) → Keeps counted m → Guards Sound m
  keeps = Keeps-Guards cell value text other e

  -- A change of flags that are no counters, and of the USB side.
  flags_changed :
      (w : World) (t : Tmc) (b : Usb)
      → counted.SameTmc w.tmc t
      → Sound w
      → Sound (record w { tmc = t; usb = b })
  flags_changed w t b same s =
      sound-Apart cell value text other e w (record w { tmc = t; usb = b }) s
        (same, tt, refl, refl, refl, refl, refl, λ low. low)

  unless-Guards : (m : M ℕ) → Keeps counted m → Guards Sound (unless_reset e m)
  unfolding unless_reset
  unless-Guards m kept w s =
      Guards-when Sound (not w.tmc.in_reset) (m >> skip)
        (Guards-bind Sound m _ (keeps m kept) λ _ u t. t) w s

  reset-Guards : Guards Sound tmc_resetstates
  unfolding tmc_resetstates gpib_interface_clear
  reset-Guards w s = record {
    settled = record {
      split = s.settled.split;
      response = record {
        size = s.settled.response.size;
        len_lt = omega arith;
        rpos_le = inl refl;
      };
      address = s.settled.address;
      eoi = s.settled.eoi;
      rom = s.settled.rom;
      serial = s.settled.serial;
    };
    complete = refl;
    busy = refl;
  }

  in-Guards : (h : Header) → Guards Sound (message_in e h)
  unfolding message_in
  in-Guards h w s =
      Guards-bind Sound (set_read_termination e h) _
        (keeps (set_read_termination e h) (termination-Keeps e h))
        (λ _.
          Guards-bind Sound (answer_bytes e h.transfer_size) _
            (answer-Guards cell value text other e h.transfer_size)
            λ r u t.
              let g : Header = record h {
                transfer_size = length r.0;
                last_message = if r.1 then 1 else 0;
              } in
              Guards-bind Sound (unless_reset e (write_tmc_header e g)) _
                (unless-Guards (write_tmc_header e g) (write_header-Keeps e g))
                (λ _.
                  Guards-bind Sound
                    (unless_reset e (write_stream_quick e r.0 (io_size - header_size) io_size)) _
                    (unless-Guards (write_stream_quick e r.0 (io_size - header_size) io_size) (
                      quick_stream-Keeps counted (λ b b'. tt) e r.0 (io_size - header_size)
                        io_size))
                    λ _.
                      Guards-bind Sound (close_packets e (length r.0)) _
                        (keeps (close_packets e (length r.0)) (packets-Keeps e (length r.0)))
                        λ _ x q. Guards-when Sound x.tmc.in_reset tmc_resetstates reset-Guards x q)
                (record u { tmc = record (u.tmc) { in_complete = r.1 } })
                (flags_changed u (record (u.tmc) { in_complete = r.1 }) u.usb
                  (refl, refl, refl, λ x. x) t))
        (show clear_out w)
        (flags_changed w w.tmc (show clear_out w).usb (refl, refl, refl, λ x. x) s)

  header-Guards : (h : Option Header) → Guards Sound (serve_header e h)
  unfolding serve_header
  header-Guards none w s = s
  header-Guards (some h) w s =
      Guards-if Sound (h.message_id == 0x80) (message_trigger e) _
        (keeps (message_trigger e) (trigger_message-Keeps e))
        (Guards-if Sound (h.message_id == 0x01) (message_out e h) _
          (out-Guards cell value text other e h)
          (Guards-if Sound (h.message_id == 0x02) (message_in e h) _ (in-Guards h)
            λ u t. flags_changed u u.tmc (show stall u).usb (refl, refl, refl, λ x. x) t))
        w s

  between-Guards : Guards Sound (between_messages e)
  unfolding between_messages
  between-Guards w s =
      Guards-bind Sound (serve_srq e) _ (keeps (serve_srq e) (srq-Keeps e))
        (λ _. Guards-bind Sound (serve_sdc e) _ (keeps (serve_sdc e) (sdc_flag-Keeps e)) λ _.
          Guards-bind Sound (serve_lockout e) _ (keeps (serve_lockout e) (lockout-Keeps e)) λ _.
            Guards-bind Sound (serve_local e) _ (keeps (serve_local e) (local-Keeps e)) λ _.
              Guards-bind Sound (read_tmc_header e) _ (keeps (read_tmc_header e) (header-Keeps e))
                header-Guards)
        w s

  flush-Guards : Guards Sound (serve_reset e)
  unfolding serve_reset
  flush-Guards w s =
      Guards-when Sound (w.tmc.out_reset || w.tmc.in_reset) _
        (λ u t.
          let v =
            show abort_in (select in_ep (show clear_out (show clear_out (select out_ep u)))) in
          Guards-bind Sound (serve_sdc e) (λ _. tmc_resetstates)
            (keeps (serve_sdc e) (sdc_flag-Keeps e)) (λ _. reset-Guards) v
            (flags_changed u u.tmc v.usb (refl, refl, refl, λ x. x) t))
        w s

  end-Guards : Guards Sound (end_task e)
  unfolding end_task
  end-Guards w s =
      Guards-bind Sound (serve_reset e)
        (λ _. modify (on_tmc (λ t. record t { in_reset = false; out_reset = false }))) flush-Guards
        (λ _ u t.
          flags_changed u (record (u.tmc) { in_reset = false; out_reset = false }) u.usb
            (refl, refl, refl, λ x. x) t)
        w s

  -- `TMC_Task`
  pub task-Guards : Guards Sound (tmc_task e)
  unfolding tmc_task
  task-Guards w s =
      Guards-when Sound (e.configured w.now) _
        (λ v r.
          Guards-bind Sound
            (λ u. (if u.tmc.remaining == 0 then between_messages e else within_message e) u) _
            (λ u t.
              Guards-if Sound (u.tmc.remaining == 0) (between_messages e) (within_message e)
                between-Guards (within-Guards cell value text other e) u t)
            (λ _.
              Guards-bind Sound (serve_rstb e) _ (keeps (serve_rstb e) (rstb-Keeps e))
                λ _. end-Guards)
            v r)
        w s
