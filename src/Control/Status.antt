-- ===== src/Control/Status.antt =====
-- What `handle_control_Req_ReadStatusByte` answers.
use usb_gpib.Base.{ℕ, true, false, ◌≡◌, refl, sym, ap, List, [], ◌∷◌, ◌++◌, append_assoc, bit_or}
use usb_gpib.State.{World, Env, Tmc, UsbEvent, write, write_stream, clear_in, status_stage, remote}
use usb_gpib.Exec.{Outcome, ret, waiting, fault, halted, Ensures, Ensures-bind, Returns}
use usb_gpib.Transfer.Task.{serve_rstb, notify}
use usb_gpib.Endpoint.{select, control_ep}
use usb_gpib.Gpib.Lines.{gpib_ren, observe, on_lines}
use usb_gpib.Gpib.Timeouts.{timeout_start, is_timedout, main_countdown}
use usb_gpib.Gpib.Commands.{gpib_read_status_byte}
use usb_gpib.Gpib.Handshake.Apart.{same, Apart, countdown-Keeps}
use usb_gpib.Gpib.Commands.Apart.{read_status_byte-Keeps}
use usb_gpib.Control.{handle_read_status_byte, answer_status_byte, success}

-- The answer to a status request, on the control endpoint.
abbrev pub status_answer : ℕ → ℕ → List UsbEvent
status_answer btag status =
    write 0 success ∷ write 0 btag ∷ write 0 status ∷ clear_in 0 ∷ status_stage ∷ []

-- The control endpoint is selected, REN is asserted and the countdown is started.
abbrev pub begun : World → World
begun w =
    record (observe (remote true) (on_lines (λ l. record l { ren = true }) (select control_ep w))) {
      timeouts = record (w.timeouts) { main = 150000 };
    }

-- What the notification endpoint carries for a status request.
abbrev pub status_notice : ℕ → ℕ → List UsbEvent
status_notice btag status = write_stream 0x81 (bit_or btag 0x80 ∷ status ∷ []) ∷ clear_in 0x81 ∷ []

-- The device was polled, with this result, and its status byte is that of the poll and of the service
-- request that was noted. The answer is complete, and the part of `TMC_Task` that follows notifies the host
-- of the same byte and tag; the request is no longer pending, and the endpoint that was selected is selected
-- again.
pub record IsAnswered (e : Env) (w u : World) : Type 0 where
  pub polled : ℕ
  pub after_poll : World
  pub poll_run : gpib_read_status_byte e w.gpib_addr is_timedout (begun w) ≡ ret polled after_poll
  pub events :
      u.usb.events
      ≡ w.usb.events ++ status_answer w.tmc.read_status_tag (bit_or polled w.tmc.srq_status)
  pub notice :
      Returns
        (λ _ v.
          v.usb.events
          ≡ u.usb.events ++ status_notice w.tmc.read_status_tag (bit_or polled w.tmc.srq_status))
        (serve_rstb e u)
  pub selected : u.usb.selected ≡ w.usb.selected
  pub served : u.tmc.handle_read_status ≡ false
  pub srq_taken : u.tmc.srq_status ≡ 0
  pub split : u.tmc.request_in_progress ≡ w.tmc.request_in_progress

-- What a run ensures, with its end.
Ensures-run :
    {A : Type 0} (Q : A → World → Type 0) (o : Outcome A)
    → Ensures Q o
    → Ensures (λ a u. Q a u × (o ≡ ret a u)) o
Ensures-run Q (ret a u) h = (h, refl)
Ensures-run Q waiting h = tt
Ensures-run Q fault h = h
Ensures-run Q halted h = tt

module _ (e : Env) where
  -- The notification of an answer.
  notice_sent :
      (btag status : ℕ) (u : World)
      → u.tmc.handle_rstb ≡ true
      → u.tmc.rstb_tag ≡ btag
      → u.tmc.rstb_status ≡ status
      → Returns (λ _ v. v.usb.events ≡ u.usb.events ++ status_notice btag status) (serve_rstb e u)
  unfolding serve_rstb notify
  notice_sent btag status u asked tag byte =
      rw (asked, sym tag, sym byte) (append_assoc u.usb.events _ _)

  -- Given what the bus left alone.
  answer-IsAnswered :
      (w v : World) (status : ℕ)
      → gpib_read_status_byte e w.gpib_addr is_timedout (begun w) ≡ ret status v
      → v.tmc ≡ w.tmc
      → v.usb ≡ (select control_ep w).usb
      → IsAnswered e w (
          answer_status_byte w.usb.selected w.tmc.read_status_tag
            (bit_or status v.tmc.srq_status)
            (record v { tmc = record (v.tmc) { srq_status = 0 } }))
  unfolding answer_status_byte
  answer-IsAnswered w v status run tmc usb =
      let byte = ap (λ (t : Tmc). bit_or status t.srq_status) tmc in
      record {
        polled = status;
        after_poll = v;
        poll_run = run;
        events =
            rw
              (
                usb,
                byte,
                append_assoc w.usb.events,
                append_assoc w.usb.events,
                append_assoc w.usb.events,
                append_assoc w.usb.events,
              )
              refl;
        notice =
            notice_sent w.tmc.read_status_tag (bit_or status w.tmc.srq_status) _ refl refl byte;
        selected = refl;
        served = refl;
        srq_taken = refl;
        split = rw tmc refl;
      }

  -- A status request is answered with a success, its tag and one status byte, the result of a serial poll of
  -- the device together with the service request that was noted; `TMC_Task` then sends a notification of the
  -- same byte and of the tag with its top bit set; the request is no longer pending, and the endpoint that
  -- was selected is selected again.
  pub handle_read_status_byte-IsAnswered :
      (w : World) → Ensures (λ _ u. IsAnswered e w u) (handle_read_status_byte e w)
  unfolding handle_read_status_byte gpib_ren timeout_start
  handle_read_status_byte-IsAnswered w =
      let poll = gpib_read_status_byte e w.gpib_addr is_timedout (begun w) in
      Ensures-bind (λ a u. Apart same (begun w) u × (poll ≡ ret a u)) (λ _ u. IsAnswered e w u) poll
        _
        (Ensures-run (λ a u. Apart same (begun w) u) poll
          (read_status_byte-Keeps same e is_timedout (countdown-Keeps same main_countdown)
            w.gpib_addr (begun w)))
        λ status v h. answer-IsAnswered w v status h.1 h.0.0 h.0.1
