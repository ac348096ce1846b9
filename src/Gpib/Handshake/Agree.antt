-- ===== src/Gpib/Handshake/Agree.antt =====
-- Two timeout functions that agree, while a write is busy, serve the handshakes alike.
use usb_gpib.Base.{ℕ, zero, suc, Bool, true, false, ◌≡◌, refl, ◌∙◌, ap, ◌||◌, if◌then◌else◌}
use usb_gpib.State.{World, Sample, Env}
use usb_gpib.Exec.{M, Outcome, ret, waiting, fault, halted, pure, bind, unless, Ensures, ◌>>=◌}
use usb_gpib.Gpib.Lines.{timer_ticked, read_pin, on_lines, on_timer, set_eoi}
use usb_gpib.Gpib.Handshake.{
  poll, wait_rounds, wait, offer, gpib_tx_quick, tx_end, gpib_writedat_quick,
}
use usb_gpib.Gpib.Handshake.Apart.{
  Side, Apart, Keeps, wait-Keeps, poll-Keeps, offer-Keeps, Keeps-unless,
}

-- The write stays busy, and no byte is taken.
abbrev pub busy : Side
busy = record {
  SameTmc = λ t t'. t.write_busy ≡ true → t'.write_busy ≡ true;
  SameUsb = λ b b'. b'.taken ≡ b.taken;
  tmc-refl = λ h. h;
  usb-refl = refl;
  tmc-trans = λ a b h. b (a h);
  usb-trans = λ a b. b ∙ a;
}

-- While a write is busy, the two runs are the same.
abbrev pub Agrees : {A : Type 0} → M A → M A → Type 0
Agrees m m' = (w : World) → w.tmc.write_busy ≡ true → m w ≡ m' w

pub bind-ext :
    {A B : Type 0} (P : A → World → Type 0) (o : Outcome A) (k k' : A → M B)
    → Ensures P o
    → ((a : A) (u : World) → P a u → k a u ≡ k' a u)
    → bind o k ≡ bind o k'
bind-ext P (ret a u) k k' h same = same a u h
bind-ext P waiting k k' h same = refl
bind-ext P fault k k' h same = refl
bind-ext P halted k k' h same = refl

pub Agrees-bind :
    {A B : Type 0} (m m' : M A) (k k' : A → M B)
    → Agrees m m'
    → Keeps busy m'
    → ((a : A) → Agrees (k a) (k' a))
    → Agrees (m >>= k) (m' >>= k')
Agrees-bind m m' k k' h keeps hk w b =
    ap (λ o. bind o k) (h w b)
    ∙ bind-ext (λ a u. Apart busy w u) (m' w) k k' (keeps w) λ a u kept. hk a u (kept.0 b)

pub Agrees-refl : {A : Type 0} (m : M A) → Agrees m m
Agrees-refl m w b = refl

pub Agrees-unless : (t : Bool) (m m' : M Bool) → Agrees m m' → Agrees (unless t m) (unless t m')
Agrees-unless true m m' h = Agrees-refl (pure true)
Agrees-unless false m m' h = h

pub Agrees-if :
    {A : Type 0} (t : Bool) (m m' k k' : M A)
    → Agrees m m'
    → Agrees k k'
    → Agrees (if t then m else k) (if t then m' else k')
Agrees-if true m m' k k' h _ = h
Agrees-if false m m' k k' _ h = h

module _ (e : Env) (f g : M Bool) (agree : Agrees f g) (keeps : Keeps busy g) where
  poll-Agrees : (quick : Bool) → Agrees (poll quick f) (poll quick g)
  unfolding poll timer_ticked
  poll-Agrees quick w b =
      Agrees-if (w.gpib.timer.ticked || quick) f g (pure false) (pure false) agree
        (Agrees-refl (pure false)) (on_timer (λ t. record t { ticked = false }) w) b

  round_end :
      (t level : Bool) (m m' : M Bool)
      → Agrees m m'
      → Agrees
          (elim (level || t) as (λ _. M Bool) [ true ↦ pure t | false ↦ m ])
          (elim (level || t) as (λ _. M Bool) [ true ↦ pure t | false ↦ m' ])
  round_end true true m m' h w b = refl
  round_end true false m m' h w b = refl
  round_end false true m m' h w b = refl
  round_end false false m m' h w b = h w b

  wait_rounds-Agrees :
      (n : ℕ) (ready : Sample → Bool) (quick : Bool)
      → Agrees (wait_rounds e n ready quick f) (wait_rounds e n ready quick g)
  unfolding wait_rounds read_pin
  wait_rounds-Agrees zero ready quick w b = refl
  wait_rounds-Agrees (suc n) ready quick w b =
      Agrees-bind (poll quick f) (poll quick g) _ _ (poll-Agrees quick)
        (poll-Keeps busy e g keeps quick)
        (λ t u x. round_end t (ready (e.pins u.now)) _ _ (wait_rounds-Agrees n ready quick) _ x) w b

  wait-Agrees :
      (ready : Sample → Bool) (quick : Bool) → Agrees (wait e ready quick f) (wait e ready quick g)
  unfolding wait
  wait-Agrees = wait_rounds-Agrees e.polls

  offer-Agrees : (quick : Bool) → Agrees (offer e f quick) (offer e g quick)
  unfolding offer
  offer-Agrees quick w b =
      Agrees-bind (wait e (λ s. s.ndac) quick f) (wait e (λ s. s.ndac) quick g) _ _
        (wait-Agrees (λ s. s.ndac) quick) (wait-Keeps busy e g keeps (λ s. s.ndac) quick)
        (λ t. Agrees-refl _) _ b

  pub tx-Agrees :
      (dat : ℕ) (iscommand quick : Bool)
      → Agrees (gpib_tx_quick e dat iscommand f quick) (gpib_tx_quick e dat iscommand g quick)
  unfolding gpib_tx_quick
  tx-Agrees dat iscommand quick w b =
      Agrees-bind (wait e (λ s. s.nrfd) quick f) (wait e (λ s. s.nrfd) quick g) _ _
        (wait-Agrees (λ s. s.nrfd) quick) (wait-Keeps busy e g keeps (λ s. s.nrfd) quick)
        (λ t.
          Agrees-bind (unless t (offer e f quick)) (unless t (offer e g quick)) _ _
            (Agrees-unless t (offer e f quick) (offer e g quick) (offer-Agrees quick))
            (Keeps-unless busy t (offer e g quick) (offer-Keeps busy e g keeps quick))
            λ t'. Agrees-refl (tx_end t'))
        _ b

  pub writedat-Agrees :
      (dat : ℕ) (eoi quick : Bool)
      → Agrees (gpib_writedat_quick e dat eoi f quick) (gpib_writedat_quick e dat eoi g quick)
  unfolding gpib_writedat_quick
  writedat-Agrees dat true quick w b =
      rw (tx-Agrees dat false quick (on_lines (set_eoi true) w) b) refl
  writedat-Agrees dat false quick w b = rw (tx-Agrees dat false quick w b) refl
