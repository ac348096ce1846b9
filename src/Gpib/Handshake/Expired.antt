-- ===== src/Gpib/Handshake/Expired.antt =====
-- Once the timeout function has expired, a transfer that polls it in every round times out at once.
use usb_gpib.Base.{ℕ, zero, suc, Bool, true, false, ◌≡◌, refl, ◌||◌, ◌++◌, append_assoc, arith}
use usb_gpib.State.{World, Sample, Env}
use usb_gpib.Exec.{M, pure, bind, unless, Ensures, Ensures-bind, Ensures-weaken, Ensures-and}
use usb_gpib.Gpib.Lines.{timer_ticked, read_pin, on_lines, gpib_recover}
use usb_gpib.Gpib.Timeouts.{SameBus, SameBus-trans, IsWatch}
use usb_gpib.Gpib.Sequence.{recoveries}
use usb_gpib.Gpib.Handshake.{poll, wait_rounds, wait, present, offer, gpib_tx_quick, tx_end}
use usb_gpib.Gpib.Handshake.Quiet.{unticked, after_pin, after_pin-SameBus, after_pin-Expired}

or_true : (b : Bool) → (b || true) ≡ true
or_true b = ground arith

module _ (e : Env) {f : M Bool} (watch : IsWatch f) where
  open watch use {Expired, quiet, sticky, frame}

  abbrev TimedOut : World → Bool → World → Type 0
  TimedOut w t u = SameBus w u × (t ≡ true) × Expired u

  f_expired : (w : World) → Expired w → Ensures (TimedOut w) (f w)
  f_expired w x =
      Ensures-weaken (λ t u. (SameBus w u × (t ≡ true → Expired u)) × ((t ≡ true) × Expired u))
        (TimedOut w) (f w)
        (Ensures-and (λ t u. SameBus w u × (t ≡ true → Expired u)) (λ t u. (t ≡ true) × Expired u)
          (f w) (quiet w) (sticky w x))
        λ t u h. (h.0.0, h.1.0, h.1.1)

  poll_expired : (w : World) → Expired w → Ensures (TimedOut w) (poll true f w)
  unfolding poll timer_ticked
  poll_expired w x = rw (or_true w.gpib.timer.ticked) (
      Ensures-weaken (TimedOut (unticked e watch w)) (TimedOut w) (f (unticked e watch w))
        (f_expired (unticked e watch w) (frame w _ _ x))
        λ t u h. (SameBus-trans {v = unticked e watch w} (ground arith) h.0, h.1, h.2))

  round_expired :
      (n : ℕ) (ready : Sample → Bool) (t level : Bool) (w u : World)
      → TimedOut w t u
      → Ensures (TimedOut w) (
          elim (level || t) as (λ _. M Bool) [
            | true ↦ pure t
            | false ↦ wait_rounds e n ready true f
          ]
            u)
  round_expired n ready true true w u h = h
  round_expired n ready true false w u h = h
  round_expired n ready false level w u h = cc

  wait_rounds_expired :
      (n : ℕ) (ready : Sample → Bool) (w : World)
      → Expired w
      → Ensures (TimedOut w) (wait_rounds e n ready true f w)
  unfolding wait_rounds read_pin
  wait_rounds_expired zero ready w x = tt
  wait_rounds_expired (suc n) ready w x =
      Ensures-bind (TimedOut w) (TimedOut w) (poll true f w) _ (poll_expired w x) λ t u h.
        round_expired n ready t (ready (e.pins u.now)) w (after_pin e watch u)
          (SameBus-trans h.0 (after_pin-SameBus e watch u), h.1, after_pin-Expired e watch u h.2)

  -- Nothing is sent but the recovery.
  abbrev pub Recovered : World → Bool → World → Type 0
  Recovered w t u = (u.gpib.log ≡ w.gpib.log ++ recoveries 1) × (t ≡ true) × Expired u

  finish_expired :
      (dat : ℕ) (iscommand t : Bool) (w u : World)
      → TimedOut (on_lines (present dat iscommand) w) t u
      → Ensures (Recovered w) (bind (unless t (offer e f true) u) tx_end)
  unfolding tx_end gpib_recover
  finish_expired dat iscommand true w u h = (rw (h.0.log, append_assoc) refl, refl, frame u _ _ h.2)
  finish_expired dat iscommand false w u h = cc

  pub tx_expired :
      (dat : ℕ) (iscommand : Bool) (w : World)
      → Expired w
      → Ensures (Recovered w) (gpib_tx_quick e dat iscommand f true w)
  unfolding gpib_tx_quick wait
  tx_expired dat iscommand w x =
      let v = on_lines (present dat iscommand) w in
      Ensures-bind (TimedOut v) (Recovered w) (wait e (λ s. s.nrfd) true f v) _
        (wait_rounds_expired e.polls (λ s. s.nrfd) v (frame w _ _ x))
        λ t u h. finish_expired dat iscommand t w u h
