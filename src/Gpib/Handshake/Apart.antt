-- ===== src/Gpib/Handshake/Apart.antt =====
-- What a transfer on the bus leaves alone: everything but the bus, the timer and the timeouts.
use usb_gpib.Base.{ℕ, zero, suc, Bool, true, false, not, ◌≡◌, refl, ◌∙◌, ◌||◌, if◌then◌else◌}
use usb_gpib.State.{World, Sample, Env, Tmc, Usb}
use usb_gpib.Exec.{M, pure, modify, when, unless, Ensures, Ensures-bind, Ensures-weaken, ◌>>=◌}
use usb_gpib.Gpib.Lines.{timer_ticked, read_pin, on_lines, on_timer, gpib_recover, set_eoi}
use usb_gpib.Gpib.Timeouts.{IsCountdown}
use usb_gpib.Gpib.Handshake.{
  poll, wait_rounds, wait, offer, gpib_tx_quick, tx_end, take_byte, gpib_readdat_quick,
  gpib_writedat_quick, log_seen,
}

-- What is asked of the USB side: two relations, between what it was and what it is.
pub record Side : Type 1 where
  pub SameTmc : Tmc → Tmc → Type 0
  pub SameUsb : Usb → Usb → Type 0
  pub tmc-refl : {t : Tmc} → SameTmc t t
  pub usb-refl : {b : Usb} → SameUsb b b
  pub tmc-trans : {t t' t'' : Tmc} → SameTmc t t' → SameTmc t' t'' → SameTmc t t''
  pub usb-trans : {b b' b'' : Usb} → SameUsb b b' → SameUsb b' b'' → SameUsb b b''

-- It is the same.
abbrev pub same : Side
same = record {
  SameTmc = λ t t'. t' ≡ t;
  SameUsb = λ b b'. b' ≡ b;
  tmc-refl = refl;
  usb-refl = refl;
  tmc-trans = λ a b. b ∙ a;
  usb-trans = λ a b. b ∙ a;
}

-- No status request has come to wait, and no byte was taken; flags and events may have changed.
abbrev pub steady : Side
steady = record {
  SameTmc = λ t t'. t'.handle_read_status ≡ t.handle_read_status;
  SameUsb = λ b b'. b'.taken ≡ b.taken;
  tmc-refl = refl;
  usb-refl = refl;
  tmc-trans = λ a b. b ∙ a;
  usb-trans = λ a b. b ∙ a;
}

module _ (s : Side) where
  -- The state of the USB side, of the parser and of the settings; and EOI stays released.
  abbrev pub Apart : World → World → Type 0
  Apart w u =
      s.SameTmc w.tmc u.tmc
      × s.SameUsb w.usb u.usb
      × (u.parser ≡ w.parser)
      × (u.response ≡ w.response)
      × (u.eeprom ≡ w.eeprom)
      × (u.gpib_addr ≡ w.gpib_addr)
      × (u.serial ≡ w.serial)
      × (w.gpib.lines.eoi ≡ false → u.gpib.lines.eoi ≡ false)

  pub Apart-trans : (u v w : World) → Apart u v → Apart v w → Apart u w
  Apart-trans u v w a b = (
    s.tmc-trans a.0 b.0,
    s.usb-trans a.1 b.1,
    b.2 ∙ a.2,
    b.3 ∙ a.3,
    b.4 ∙ a.4,
    b.5 ∙ a.5,
    b.6 ∙ a.6,
    λ released. b.7 (a.7 released),
  )

  abbrev pub Apart-refl : (w : World) → Apart w w
  Apart-refl w = (s.tmc-refl, s.usb-refl, refl, refl, refl, refl, refl, λ released. released)

  -- It changes nothing of this.
  abbrev pub Keeps : {A : Type 0} → M A → Type 0
  Keeps m = (w : World) → Ensures (λ a u. Apart w u) (m w)

  pub Keeps-bind :
      {A B : Type 0} (m : M A) (k : A → M B) → Keeps m → ((a : A) → Keeps (k a)) → Keeps (m >>= k)
  Keeps-bind m k h hk w =
      Ensures-bind (λ a u. Apart w u) (λ b u. Apart w u) (m w) k (h w)
        λ a u h'.
          Ensures-weaken (λ b v. Apart u v) (λ b v. Apart w v) (k a u) (hk a u)
            λ b v h''. Apart-trans w u v h' h''

  pub Keeps-pure : {A : Type 0} (a : A) → Keeps (pure a)
  Keeps-pure a w = Apart-refl w

  pub Keeps-unless : (t : Bool) (m : M Bool) → Keeps m → Keeps (unless t m)
  Keeps-unless true m h = Keeps-pure true
  Keeps-unless false m h = h

  pub Keeps-when : (t : Bool) (m : M (Unit {0})) → Keeps m → Keeps (when t m)
  Keeps-when true m h = h
  Keeps-when false m h = λ w. Apart-refl w

  pub Keeps-if :
      {A : Type 0} (t : Bool) (m k : M A) → Keeps m → Keeps k → Keeps (if t then m else k)
  Keeps-if true m k h _ = h
  Keeps-if false m k _ h = h

  pub Keeps-recover : Keeps gpib_recover
  unfolding gpib_recover
  Keeps-recover w = (s.tmc-refl, s.usb-refl, refl, refl, refl, refl, refl, λ _. refl)

  -- A countdown touches the timeouts only.
  pub countdown-Keeps : {f : M Bool} → IsCountdown f → Keeps f
  countdown-Keeps c w = rw (c.call w) (Apart-refl w)

  round_end :
      (t level : Bool) (m : M Bool)
      → Keeps m
      → Keeps (elim (level || t) as (λ _. M Bool) [ true ↦ pure t | false ↦ m ])
  round_end true true m h = Keeps-pure true
  round_end true false m h = Keeps-pure true
  round_end false true m h = Keeps-pure false
  round_end false false m h = h

  module _ (e : Env) (f : M Bool) (f-Keeps : Keeps f) where
    pub poll-Keeps : (quick : Bool) → Keeps (poll quick f)
    unfolding poll timer_ticked
    poll-Keeps quick w =
        Keeps-if (w.gpib.timer.ticked || quick) f (pure false) f-Keeps (Keeps-pure false)
          (on_timer (λ t. record t { ticked = false }) w)

    wait_rounds-Keeps :
        (n : ℕ) (ready : Sample → Bool) (quick : Bool) → Keeps (wait_rounds e n ready quick f)
    unfolding wait_rounds read_pin
    wait_rounds-Keeps zero ready quick w = tt
    wait_rounds-Keeps (suc n) ready quick w =
        Keeps-bind (poll quick f) _ (poll-Keeps quick)
          (λ t u. round_end t (ready (e.pins u.now)) _ (wait_rounds-Keeps n ready quick) _) w

    pub wait-Keeps : (ready : Sample → Bool) (quick : Bool) → Keeps (wait e ready quick f)
    unfolding wait
    wait-Keeps = wait_rounds-Keeps e.polls

    pub offer-Keeps : (quick : Bool) → Keeps (offer e f quick)
    unfolding offer
    offer-Keeps quick w =
        Keeps-bind (wait e (λ s. s.ndac) quick f) _ (wait-Keeps (λ s. s.ndac) quick)
          (λ t u.
            Keeps-bind (when (not t) (modify (log_seen))) _
              (Keeps-when (not t) (modify (log_seen)) λ v. Apart-refl v) (λ _. Keeps-pure t) _)
          _

    tx_end-Keeps : (t : Bool) → Keeps (tx_end t)
    unfolding tx_end
    tx_end-Keeps t w =
        Keeps-bind (when t gpib_recover) _ (Keeps-when t gpib_recover Keeps-recover)
          (λ _. Keeps-pure t) _

    pub tx-Keeps :
        (dat : ℕ) (iscommand quick : Bool) → Keeps (gpib_tx_quick e dat iscommand f quick)
    unfolding gpib_tx_quick
    tx-Keeps dat iscommand quick w =
        Keeps-bind (wait e (λ s. s.nrfd) quick f) _ (wait-Keeps (λ s. s.nrfd) quick)
          (λ t.
            Keeps-bind (unless t (offer e f quick)) _
              (Keeps-unless t (offer e f quick) (offer-Keeps quick)) λ t'. tx_end-Keeps t')
          _

    pub writedat-Keeps :
        (dat : ℕ) (eoi quick : Bool) → Keeps (gpib_writedat_quick e dat eoi f quick)
    unfolding gpib_writedat_quick
    writedat-Keeps dat true quick w =
        Ensures-bind (λ a u. Apart (on_lines (set_eoi true) w) u) (λ a u. Apart w u)
          (gpib_tx_quick e dat false f quick (on_lines (set_eoi true) w)) _
          (tx-Keeps dat false quick (on_lines (set_eoi true) w))
          λ t u h. (h.0, h.1, h.2, h.3, h.4, h.5, h.6, λ _. refl)
    writedat-Keeps dat false quick w =
        Keeps-bind (gpib_tx_quick e dat false f quick) _ (tx-Keeps dat false quick)
          (λ t v. (s.tmc-refl, s.usb-refl, refl, refl, refl, refl, refl, λ _. refl)) w

    take_byte-Keeps : (quick : Bool) → Keeps (take_byte e f quick)
    unfolding take_byte read_pin
    take_byte-Keeps quick w =
        Keeps-bind (wait e (λ s. s.dav) quick f) _ (wait-Keeps (λ s. s.dav) quick)
          (λ t v. Apart-refl v) _

    pub readdat-Keeps : (quick : Bool) → Keeps (gpib_readdat_quick e f quick)
    unfolding gpib_readdat_quick
    readdat-Keeps quick w =
        Keeps-bind (wait e (λ s. not s.dav) quick f) _ (wait-Keeps (λ s. not s.dav) quick)
          (λ t.
            Keeps-bind (if t then pure (0, false, true) else take_byte e f quick) _
              (Keeps-if t (pure (0, false, true)) (take_byte e f quick) (λ v. Apart-refl v)
                (take_byte-Keeps quick))
              λ r v.
                Keeps-bind (when r.2 gpib_recover) _ (Keeps-when r.2 gpib_recover Keeps-recover)
                  (λ _ u. Apart-refl u) _)
          _
