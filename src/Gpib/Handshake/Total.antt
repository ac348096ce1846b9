-- ===== src/Gpib/Handshake/Total.antt =====
-- With a finite timeout function that is polled in every round, each transfer returns, in as many rounds
-- as its bound allows.
use usb_gpib.Base.{
  ℕ, zero, suc, Bool, true, false, not, ◌≡◌, refl, ◌⊎◌, inl, inr, ◌+◌, ◌-◌, ◌≤◌, ◌<◌, ◌||◌,
  if◌then◌else◌, arith,
}
use usb_gpib.State.{World, Gpib, Lines, Sample, Env}
use usb_gpib.Exec.{
  M, pure, modify, when, unless, Returns, Returns-bind, Returns-weaken, ◌>>=◌, ◌>>◌,
}
use usb_gpib.Gpib.Lines.{
  timer_ticked, read_pin, on_lines, on_timer, gpib_recover, set_eoi, set_dav, set_ndac, set_nrfd,
}
use usb_gpib.Gpib.Timeouts.{IsFinite}
use usb_gpib.Gpib.Handshake.Paced.{after_pin, pin-left, Coming, slow-Returns}
use usb_gpib.Gpib.Handshake.{
  poll, wait_rounds, wait, present, ends_message, offer, gpib_tx_quick, tx_end, take_byte,
  gpib_readdat_quick, gpib_writedat_quick, log_seen,
}

or_true : (b : Bool) → (b || true) ≡ true
or_true b = ground arith

module _ (e : Env) {f : M Bool} (c : IsFinite f) where
  abbrev left : World → ℕ
  left = c.left

  -- A wait is followed for longer than the bound.
  abbrev pub Followed : World → Type 0
  Followed w = c.left w + c.pace < e.polls

  -- The timeout function is called in every round, or the timer interrupt keeps coming.
  abbrev pub Beats : Bool → Type 0
  Beats quick = (quick ≡ true) ⊎ ((n : ℕ) → Coming e c.pace n)

  -- It returns, and spends of the countdown at most.
  abbrev pub Total : {A : Type 0} → M A → Type 0
  Total m = (w : World) → Followed w → Returns (λ a u. c.left u ≤ c.left w) (m w)

  pub Total-bind :
      {A B : Type 0} (m : M A) (k : A → M B) → Total m → ((a : A) → Total (k a)) → Total (m >>= k)
  Total-bind m k h hk w x =
      Returns-bind (λ a u. left u ≤ left w) (λ b u. left u ≤ left w) (m w) k (h w x)
        λ a u le.
          Returns-weaken (λ b v. left v ≤ left u) (λ b v. left v ≤ left w) (k a u)
            (hk a u (omega (arith, le, x))) λ b v le2. omega (arith, le, le2)

  pub Total-pure : {A : Type 0} (a : A) → Total (pure a)
  Total-pure a w x = omega arith

  -- What is returned at the end does not matter.
  pub Total-map : {A B : Type 0} (m : M A) (g : A → B) → Total m → Total (m >>= λ a. pure (g a))
  Total-map m g h = Total-bind m (λ a. pure (g a)) h λ a. Total-pure (g a)

  -- A change that does not touch the timeouts.
  pub Total-modify :
      (g : World → World) → ((w : World) → c.left (g w) ≤ c.left w) → Total (modify g)
  Total-modify g le w x = le w

  -- A change of the bus, or of its log.
  pub Total-bus : (g : World → Gpib) → Total (modify (λ w. record w { gpib = g w }))
  Total-bus g = Total-modify (λ w. record w { gpib = g w }) λ w. c.frame w (g w) w.now (omega arith)

  pub Total-lines : (g : Lines → Lines) → Total (modify (on_lines g))
  Total-lines g = Total-bus λ w. record (w.gpib) { lines = g w.gpib.lines }

  pub Total-unless : (t : Bool) (m : M Bool) → Total m → Total (unless t m)
  Total-unless true m h = Total-pure true
  Total-unless false m h = h

  pub Total-when : (t : Bool) (m : M (Unit {0})) → Total m → Total (when t m)
  Total-when true m h = h
  Total-when false m h = λ w x. omega arith

  pub Total-if :
      {A : Type 0} (t : Bool) (m k : M A) → Total m → Total k → Total (if t then m else k)
  Total-if true m k h _ = h
  Total-if false m k _ h = h

  pub Total-read_pin : {A : Type 0} (pin : Sample → A) → Total (read_pin e pin)
  unfolding read_pin
  Total-read_pin pin w x = pin-left e c w

  pub Total-recover : Total gpib_recover
  unfolding gpib_recover
  Total-recover w x = c.frame w _ w.now (omega arith)

  -- After a poll, either it timed out or the countdown has become shorter.
  poll_counts :
      (w : World)
      → Returns (λ t u. left u ≤ left w × (t ≡ false → left u + c.pace < left w)) (poll true f w)
  unfolding poll timer_ticked
  poll_counts w =
      let v = on_timer (λ t. record t { ticked = false }) w in
      rw (or_true w.gpib.timer.ticked) (
        Returns-weaken (λ t u. left u ≤ left v × (t ≡ false → left u + c.pace < left v))
          (λ t u. left u ≤ left w × (t ≡ false → left u + c.pace < left w)) (f v) (c.call v)
          λ t u h.
            let le = c.frame w v.gpib w.now (omega arith) in
            (omega (arith, h.0, le), λ x. omega (arith, h.1 x, le)))

  round_end :
      (n : ℕ) (ready : Sample → Bool) (t level : Bool) (b : ℕ) (u : World)
      → left u ≤ b
      → (t ≡ false → left u < b)
      → b < suc n
      → ((v : World)
          → left v < n
          → Returns (λ t v'. left v' ≤ left v) (wait_rounds e n ready true f v))
      → Returns
          (λ t v. left v ≤ b)
          (elim (level || t) as (λ _. M Bool) [
            | true ↦ pure t
            | false ↦ wait_rounds e n ready true f
          ]
            u)
  round_end n ready true true b u le lt x next = le
  round_end n ready true false b u le lt x next = le
  round_end n ready false true b u le lt x next = le
  round_end n ready false false b u le lt x next =
      Returns-weaken (λ t v. left v ≤ left u) (λ t v. left v ≤ b) (wait_rounds e n ready true f u)
        (next u (omega (arith, lt refl, x))) λ t v le2. omega (arith, le2, le)

  wait_rounds-Returns :
      (n : ℕ) (ready : Sample → Bool) (w : World)
      → left w < n
      → Returns (λ t u. left u ≤ left w) (wait_rounds e n ready true f w)
  unfolding wait_rounds read_pin
  wait_rounds-Returns zero ready w x = omega arith
  wait_rounds-Returns (suc n) ready w x =
      Returns-bind (λ t u. left u ≤ left w × (t ≡ false → left u + c.pace < left w))
        (λ t u. left u ≤ left w) (poll true f w) _ (poll_counts w)
        λ t u h.
          let le = pin-left e c u in
          round_end n ready t (ready (e.pins u.now)) (left w) (after_pin e c u)
            (omega (arith, le, h.0)) (λ y. omega (arith, le, h.1 y)) x (wait_rounds-Returns n ready)

  pub wait-Total :
      (ready : Sample → Bool) (quick : Bool) → Beats quick → Total (wait e ready quick f)
  unfolding wait
  wait-Total ready true beat w x = wait_rounds-Returns e.polls ready w (omega (arith, x))
  wait-Total ready false (inl h) w x = cc
  wait-Total ready false (inr beat) w x = slow-Returns e c beat ready w x

  offer-Total : (quick : Bool) → Beats quick → Total (offer e f quick)
  unfolding offer
  offer-Total quick beat w =
      Total-bind (modify (on_lines (set_dav true))) _ (Total-lines (set_dav true))
        (λ _. Total-bind (wait e (λ s. s.ndac) quick f) _ (wait-Total (λ s. s.ndac) quick beat) λ t.
          Total-bind (modify (on_lines (set_dav false))) _ (Total-lines (set_dav false)) λ _.
            Total-bind (when (not t) (modify (log_seen))) (λ _. pure t)
              (Total-when (not t) (modify (log_seen)) (Total-bus λ w. (log_seen w).gpib))
              λ _. Total-pure t)
        w

  tx_end-Total : (t : Bool) → Total (tx_end t)
  unfolding tx_end
  tx_end-Total t w =
      Total-bind (modify (on_lines (λ l. record l { dio = 0 }))) _
        (Total-lines (λ l. record l { dio = 0 }))
        (λ _.
          Total-bind (when t gpib_recover) (λ _. pure t) (Total-when t gpib_recover Total-recover)
            λ _. Total-pure t)
        w

  pub tx-Total :
      (dat : ℕ) (iscommand quick : Bool)
      → Beats quick
      → Total (gpib_tx_quick e dat iscommand f quick)
  unfolding gpib_tx_quick
  tx-Total dat iscommand quick beat w =
      Total-bind (modify (on_lines (present dat iscommand))) _ (Total-lines (present dat iscommand))
        (λ _. Total-bind (wait e (λ s. s.nrfd) quick f) _ (wait-Total (λ s. s.nrfd) quick beat) λ t.
          Total-bind (unless t (offer e f quick)) _
            (Total-unless t (offer e f quick) (offer-Total quick beat)) λ t'. tx_end-Total t')
        w

  pub writedat-Total :
      (dat : ℕ) (eoi quick : Bool) → Beats quick → Total (gpib_writedat_quick e dat eoi f quick)
  unfolding gpib_writedat_quick
  writedat-Total dat eoi quick beat =
      Total-bind (when eoi (modify (on_lines (set_eoi true)))) _
        (Total-when eoi (modify (on_lines (set_eoi true))) (Total-lines (set_eoi true)))
        λ _.
          Total-bind (gpib_tx_quick e dat false f quick) _ (tx-Total dat false quick beat) λ t.
            Total-map (modify (on_lines (set_eoi false))) (λ _. t) (Total-lines (set_eoi false))

  take_byte-Total : (quick : Bool) → Beats quick → Total (take_byte e f quick)
  unfolding take_byte
  take_byte-Total quick beat w =
      Total-bind (modify (on_lines (set_nrfd true))) _ (Total-lines (set_nrfd true))
        (λ _. Total-bind (read_pin e (λ s. 255 - s.dio)) _ (Total-read_pin (λ s. 255 - s.dio)) λ d.
          Total-bind (read_pin e (λ s. not s.eoi)) _ (Total-read_pin (λ s. not s.eoi)) λ eoi.
            Total-bind (modify (on_lines (set_ndac false))) _ (Total-lines (set_ndac false)) λ _.
              Total-map {B = ℕ × Bool × Bool} (wait e (λ s. s.dav) quick f) (λ t. (d, eoi, t))
                (wait-Total (λ s. s.dav) quick beat))
        w

  -- The lines of an acceptor.
  abbrev accepting : Lines → Lines
  accepting l = record l { atn = false; ndac = true; nrfd = false }

  pub readdat-Total : (quick : Bool) → Beats quick → Total (gpib_readdat_quick e f quick)
  unfolding gpib_readdat_quick
  readdat-Total quick beat w =
      Total-bind (modify (on_lines accepting)) _ (Total-lines accepting)
        (λ _.
          Total-bind (wait e (λ s. not s.dav) quick f) _ (wait-Total (λ s. not s.dav) quick beat)
            λ t.
              Total-bind (if t then pure (0, false, true) else take_byte e f quick) _
                (Total-if t (pure (0, false, true)) (take_byte e f quick) (λ v x. omega arith)
                  (take_byte-Total quick beat))
                λ r v.
                  Total-bind {B = ℕ × Bool × Bool} (when r.2 gpib_recover)
                    (λ _.
                      modify (on_lines (set_nrfd true)) >> pure (r.0, ends_message v r.0 r.1, r.2))
                    (Total-when r.2 gpib_recover Total-recover)
                    (λ _.
                      Total-map {B = ℕ × Bool × Bool} (modify (on_lines (set_nrfd true)))
                        (λ _. (r.0, ends_message v r.0 r.1, r.2)) (Total-lines (set_nrfd true)))
                    v)
        w
