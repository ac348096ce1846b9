-- ===== src/Control/Serve.antt =====
-- What the answer to a status request leaves alone.
use usb_gpib.Base.{ℕ, true, false, ◌≡◌, refl, bit_or}
use usb_gpib.State.{World, Env, Tmc, Usb, remote}
use usb_gpib.Exec.{Ensures-bind}
use usb_gpib.Endpoint.{select, control_ep}
use usb_gpib.Gpib.Lines.{gpib_ren, observe, on_lines}
use usb_gpib.Gpib.Timeouts.{timeout_start, is_timedout, main_countdown}
use usb_gpib.Gpib.Commands.{gpib_read_status_byte}
use usb_gpib.Gpib.Handshake.Apart.{Side, same, Apart, Keeps, countdown-Keeps}
use usb_gpib.Gpib.Commands.Apart.{read_status_byte-Keeps}
use usb_gpib.Control.{handle_read_status_byte, answer_status_byte}

-- The flags after the answer.
abbrev pub answered : ℕ → ℕ → Tmc → Tmc
answered btag status t = record t {
  srq_status = 0;
  rstb_tag = btag;
  rstb_status = status;
  handle_rstb = true;
  handle_read_status = false;
}

module _ (s : Side)
    (tmc_ok : (t t' : Tmc) (btag status : ℕ) → t' ≡ t → s.SameTmc t (answered btag status t'))
    (usb_ok : (b b' : Usb) → b'.taken ≡ b.taken → s.SameUsb b b') (e : Env) where
  abbrev begun : World → World
  begun w =
      record (observe (remote true)
        (on_lines (λ l. record l { ren = true }) (select control_ep w))) {
          timeouts = record (w.timeouts) { main = 150000 };
        }

  finished :
      (w v : World) (status : ℕ)
      → Apart same (begun w) v
      → Apart s w (
          answer_status_byte w.usb.selected w.tmc.read_status_tag status
            (record v { tmc = record (v.tmc) { srq_status = 0 } }))
  unfolding answer_status_byte
  finished w v status h = (
    tmc_ok w.tmc v.tmc w.tmc.read_status_tag status h.0,
    usb_ok w.usb _ (rw (h.1) refl),
    h.2,
    h.3,
    h.4,
    h.5,
    h.6,
    h.7,
  )

  pub handle_read_status_byte-Keeps : Keeps s (handle_read_status_byte e)
  unfolding handle_read_status_byte gpib_ren timeout_start
  handle_read_status_byte-Keeps w =
      Ensures-bind (λ a u. Apart same (begun w) u) (λ _ u. Apart s w u)
        (gpib_read_status_byte e w.gpib_addr is_timedout (begun w)) _
        (read_status_byte-Keeps same e is_timedout (countdown-Keeps same main_countdown) w.gpib_addr
          (begun w))
        λ status v h. finished w v (bit_or status v.tmc.srq_status) h
