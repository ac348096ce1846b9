-- ===== src/Gpib/Handshake/Quiet.antt =====
-- A wait changes nothing on the bus, and ends by the pin or with an expired timeout.
use usb_gpib.Base.{ℕ, zero, suc, Bool, true, false, ◌≡◌, ◌||◌, if◌then◌else◌, arith}
use usb_gpib.State.{World, Sample, Env}
use usb_gpib.Exec.{M, Outcome, pure, Ensures, Ensures-bind, Ensures-weaken}
use usb_gpib.Gpib.Lines.{timer_ticked, read_pin, on_timer, advance}
use usb_gpib.Gpib.Timeouts.{SameBus, SameBus-refl, SameBus-trans, IsWatch}
use usb_gpib.Gpib.Handshake.{poll, wait_rounds, wait}

module _ (e : Env) {f : M Bool} (watch : IsWatch f) where
  open watch use {Expired, quiet, sticky, frame}

  -- The bus is the same, and a `true` means that the timeout function has expired.
  abbrev pub Watched : World → Bool → World → Type 0
  Watched w t w' = SameBus w w' × (t ≡ true → Expired w')

  pub from_same :
      (u w : World) (o : Outcome Bool) → SameBus u w → Ensures (Watched w) o → Ensures (Watched u) o
  from_same u w o same h =
      Ensures-weaken (Watched w) (Watched u) o h λ t w' k. (SameBus-trans same k.0, k.1)

  -- The world after `timer_ticked`.
  abbrev pub unticked : World → World
  unticked w = on_timer (λ t. record t { ticked = false }) w

  poll_if : (b : Bool) (w : World) → Ensures (Watched w) ((if b then f else pure false) w)
  poll_if true w = quiet w
  poll_if false w = (SameBus-refl w, λ h. cc)

  poll-Watched : (quick : Bool) (w : World) → Ensures (Watched w) (poll quick f w)
  unfolding poll timer_ticked
  poll-Watched quick w =
      from_same w (unticked w) _ (ground arith)
        (poll_if (w.gpib.timer.ticked || quick) (unticked w))

  -- The world after one access to the pins.
  abbrev pub after_pin : World → World
  after_pin w = advance (e.pins w.now) w

  pub after_pin-SameBus : (w : World) → SameBus w (after_pin w)
  after_pin-SameBus w = ground arith

  pub after_pin-Expired : (w : World) → Expired w → Expired (after_pin w)
  after_pin-Expired w = frame w _ _

  -- One round of a wait, given what follows it.
  round_end :
      (n : ℕ) (ready : Sample → Bool) (quick : Bool) (t level : Bool) (w : World)
      → (t ≡ true → Expired w)
      → ((u : World) → Ensures (Watched u) (wait_rounds e n ready quick f u))
      → Ensures (Watched w) (
          elim (level || t) as (λ _. M Bool) [
            | true ↦ pure t
            | false ↦ wait_rounds e n ready quick f
          ]
            w)
  round_end n ready quick true true w x next = (SameBus-refl w, x)
  round_end n ready quick true false w x next = (SameBus-refl w, x)
  round_end n ready quick false true w x next = (SameBus-refl w, λ h. cc)
  round_end n ready quick false false w x next = next w

  pub wait_rounds-Watched :
      (n : ℕ) (ready : Sample → Bool) (quick : Bool) (w : World)
      → Ensures (Watched w) (wait_rounds e n ready quick f w)
  unfolding wait_rounds read_pin
  wait_rounds-Watched zero ready quick w = tt
  wait_rounds-Watched (suc n) ready quick w =
      Ensures-bind (Watched w) (Watched w) (poll quick f w) _ (poll-Watched quick w) λ t u h.
        from_same w (after_pin u) _ (SameBus-trans h.0 (after_pin-SameBus u)) (
          round_end n ready quick t (ready (e.pins u.now)) (after_pin u)
            (λ x. after_pin-Expired u (h.1 x)) (wait_rounds-Watched n ready quick))

  pub wait-Watched :
      (ready : Sample → Bool) (quick : Bool) (w : World)
      → Ensures (Watched w) (wait e ready quick f w)
  unfolding wait
  wait-Watched ready quick w = wait_rounds-Watched e.polls ready quick w
