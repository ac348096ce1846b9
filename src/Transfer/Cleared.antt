-- ===== src/Transfer/Cleared.antt =====
-- The end of a clear that the host has asked for.
use usb_gpib.Base.{Bool, true, false, ◌≡◌, refl, ◌∙◌, ap, ◌||◌, ◌<◌, arith}
use usb_gpib.State.{World, Env, Tmc, remote, clear_out, abort_in}
use usb_gpib.Exec.{M, when, Returns, Returns-bind, Returns-Ensures}
use usb_gpib.Endpoint.{on_tmc, select, show, out_ep, in_ep}
use usb_gpib.Gpib.Lines.{on_lines, observe, gpib_ren}
use usb_gpib.Gpib.Timeouts.{timeout_start, is_timedout, main_countdown, countdown-IsFinite}
use usb_gpib.Gpib.Handshake.Apart.{same, Apart, countdown-Keeps}
use usb_gpib.Gpib.Commands.{gpib_sdc}
use usb_gpib.Gpib.Commands.Apart.{sdc-Keeps}
use usb_gpib.Gpib.Commands.Total.{sdc-Total}
use usb_gpib.Control.{
  initiate_clear, check_clear, check_status, req_initiate_clear, success, status_pending,
}
use usb_gpib.Transfer.Reset.{tmc_resetstates, serve_sdc, serve_reset, end_task}

-- Whether a clear is still to be dealt with.
abbrev pub is_clearing : Tmc → Bool
is_clearing t = t.in_reset || t.out_reset || t.handle_sdc

-- The state when SDC is sent.
abbrev started : World → World
started w = record (observe (remote true) (on_lines (λ l. record l { ren = true }) w)) {
  timeouts = record (w.timeouts) { main = 50000 };
}

-- The test holds.
pub when_holds :
    (Q : Unit {0} → World → Type 0) (b : Bool) (m : M (Unit {0})) (w : World)
    → b ≡ true
    → Returns Q (m w)
    → Returns Q (when b m w)
when_holds Q true m w h r = r
when_holds Q false m w h r = cc

module _ (e : Env) (long : 50000 < e.polls) where
  sdc_sent :
      (w : World) → Returns (λ t u. Apart same w u) (gpib_sdc e w.gpib_addr is_timedout (started w))
  unfolding is_timedout
  sdc_sent w =
      Returns-Ensures _ (λ t u. Apart same w u) (gpib_sdc e w.gpib_addr is_timedout (started w))
        (sdc-Total e (countdown-IsFinite main_countdown) w.gpib_addr (started w)
          (omega (arith, long)))
        (sdc-Keeps same e is_timedout (countdown-Keeps same main_countdown) w.gpib_addr (started w))

  -- SDC was sent, and the request in progress is the same.
  abbrev pub Served : World → Unit {0} → World → Type 0
  Served w _ u =
      (u.tmc.handle_sdc ≡ false) × (u.tmc.request_in_progress ≡ w.tmc.request_in_progress)

  pub serve_sdc-Served : (w : World) → w.tmc.handle_sdc ≡ true → Returns (Served w) (serve_sdc e w)
  unfolding serve_sdc gpib_ren timeout_start
  serve_sdc-Served w asked = when_holds (Served w) w.tmc.handle_sdc _ w asked (
      Returns-bind (λ t u. Apart same w u) (Served w)
        (gpib_sdc e w.gpib_addr is_timedout (started w)) _ (sdc_sent w)
        λ t u a. (refl, ap (λ b. b.request_in_progress) a.0))

  -- The world when the reset is served.
  abbrev pub flushed : World → World
  flushed w = show abort_in (select in_ep (show clear_out (show clear_out (select out_ep w))))

  serve_reset-Served :
      (w : World)
      → (w.tmc.out_reset || w.tmc.in_reset) ≡ true
      → w.tmc.handle_sdc ≡ true
      → Returns (Served w) (serve_reset e w)
  unfolding serve_reset tmc_resetstates
  serve_reset-Served w reset asked =
      when_holds (Served w) (w.tmc.out_reset || w.tmc.in_reset) _ w reset (
        Returns-bind (Served (flushed w)) (Served w) (serve_sdc e (flushed w)) _
          (serve_sdc-Served (flushed w) asked) λ _ u h. (refl, h.1))

  -- Nothing of the clear is left, and it is still the request in progress.
  abbrev Cleared : World → Type 0
  Cleared u =
      (check_status req_initiate_clear (is_clearing u.tmc) u.tmc ≡ success)
      × ((check_clear u).tmc.request_in_progress ≡ 0)

  cleared :
      (u : World)
      → u.tmc.handle_sdc ≡ false
      → u.tmc.request_in_progress ≡ req_initiate_clear
      → Cleared (on_tmc (λ t. record t { in_reset = false; out_reset = false }) u)
  unfolding check_clear
  cleared u sdc running = ground arith

  -- A clear, from its request to the check that ends it.
  pub clear_completes :
      (w : World)
      → w.tmc.request_in_progress ≡ 0
      → (check_status req_initiate_clear (is_clearing (initiate_clear w).tmc) (initiate_clear w).tmc
          ≡ status_pending)
        × ((check_clear (initiate_clear w)).tmc.request_in_progress ≡ req_initiate_clear)
        × Returns
            (λ _ u.
              (check_status req_initiate_clear (is_clearing u.tmc) u.tmc ≡ success)
              × ((check_clear u).tmc.request_in_progress ≡ 0))
            (end_task e (initiate_clear w))
  unfolding initiate_clear check_clear end_task
  clear_completes w idle = (
    ground arith,
    ground arith,
    Returns-bind (Served (initiate_clear w)) (λ _ u. Cleared u) (serve_reset e (initiate_clear w)) _
        (serve_reset-Served (initiate_clear w) (ground arith) (ground arith))
        λ _ u h. cleared u h.0 (h.1 ∙ ground arith),
  )
