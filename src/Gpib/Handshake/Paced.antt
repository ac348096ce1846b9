-- ===== src/Gpib/Handshake/Paced.antt =====
-- A wait that calls its timeout function after a timer interrupt only returns, where the interrupt keeps
-- coming.
use usb_gpib.Base.{
  ℕ, zero, suc, Bool, true, false, ◌≡◌, refl, subst, ◌⊎◌, inl, inr, ◌+◌, ◌≤◌, ◌<◌, ◌||◌,
  if◌then◌else◌, arith,
}
use usb_gpib.State.{World, Gpib, Sample, Env}
use usb_gpib.Exec.{M, pure, bind, Returns, Returns-bind, Returns-weaken}
use usb_gpib.Gpib.Lines.{timer_ticked, read_pin, on_timer, advance, timer0_isr}
use usb_gpib.Gpib.Timeouts.{IsFinite}
use usb_gpib.Gpib.Handshake.{poll, wait_rounds}

isr-ticked : (pin : Bool) (g : Gpib) → (timer0_isr pin g).ticked ≡ true
isr-ticked pin g = ground arith

-- The interrupt comes before one of the next accesses to the pins, of which there are `d`.
abbrev pub Coming : Env → ℕ → ℕ → Type 0
Coming e d n = (k : ℕ) × (k < d) × ((e.pins (n + k)).tick ≡ true)

module _ (e : Env) {f : M Bool} (c : IsFinite f) where
  abbrev pub after_pin : World → World
  after_pin w = advance (e.pins w.now) w

  pub pin-left : (w : World) → c.left (after_pin w) ≤ c.left w
  pin-left w = c.frame w (after_pin w).gpib (w.now + 1) (omega arith)

  -- It has come, or it will.
  abbrev Due : ℕ → World → Type 0
  Due d w = (w.gpib.timer.ticked ≡ true) ⊎ Coming e d w.now

  after_tick : (w : World) → (e.pins w.now).tick ≡ true → (after_pin w).gpib.timer.ticked ≡ true
  after_tick w h = rw h (isr-ticked (e.pins w.now).atn w.gpib)

  tick_next : (d : ℕ) (w : World) → Coming e (suc d) w.now → Due d (after_pin w)
  tick_next d w (zero, lt, h) =
      let now : w.now + 0 ≡ w.now = omega arith in
      inl (after_tick w (subst (λ n. (e.pins n).tick ≡ true) now h))
  tick_next d w (suc k, lt, h) =
      let later : w.now + suc k ≡ w.now + 1 + k = omega arith in
      inr (k, omega (arith, lt), subst (λ n. (e.pins n).tick ≡ true) later h)

  Coming-more : (d d' n : ℕ) → d ≤ d' → Coming e d n → Coming e d' n
  Coming-more d d' n le (k, lt, h) = (k, omega (arith, lt, le), h)

  -- It has not come yet.
  still_awaited :
      (d : ℕ) (w : World)
      → w.gpib.timer.ticked ≡ false
      → Due d w
      → (d' : ℕ) × (d ≡ suc d') × Coming e (suc d') w.now
  still_awaited d w h (inl come) = cc
  still_awaited zero w h (inr (k, lt, tick)) = absurd (omega (arith, lt))
  still_awaited (suc d) w h (inr coming) = (d, refl, coming)

  -- The end of a round.
  round_end :
      (n : ℕ) (ready : Sample → Bool) (t level : Bool) (b : ℕ) (u : World)
      → c.left u ≤ b
      → (t ≡ false → Returns (λ t v. c.left v ≤ c.left u) (wait_rounds e n ready false f u))
      → Returns
          (λ t v. c.left v ≤ b)
          (elim (level || t) as (λ _. M Bool) [
            | true ↦ pure t
            | false ↦ wait_rounds e n ready false f
          ]
            u)
  round_end n ready true true b u le next = le
  round_end n ready true false b u le next = le
  round_end n ready false true b u le next = le
  round_end n ready false false b u le next =
      Returns-weaken (λ t v. c.left v ≤ c.left u) (λ t v. c.left v ≤ b)
        (wait_rounds e n ready false f u) (next refl) λ t v le2. omega (arith, le2, le)

  module _ (beat : (n : ℕ) → Coming e c.pace n) where
    -- What a round does, by whether the interrupt has come.
    round :
        (n d : ℕ) (ready : Sample → Bool) (w : World) (ticked : Bool)
        → Due d w
        → c.left w + d < suc n
        → ((d' : ℕ) (v : World)
            → Due d' v
            → c.left v + d' < n
            → Returns (λ t u. c.left u ≤ c.left v) (wait_rounds e n ready false f v))
        → w.gpib.timer.ticked ≡ ticked
        → Returns
            (λ t u. c.left u ≤ c.left w)
            (bind
              ((if ticked || false then f else pure false)
                (on_timer (λ t. record t { ticked = false }) w))
              (λ t u.
                elim (ready (e.pins u.now) || t) as (λ _. M Bool) [
                  | true ↦ pure t
                  | false ↦ wait_rounds e n ready false f
                ]
                  (after_pin u)))
    round n d ready w true due lt rest h =
        let v = on_timer (λ t. record t { ticked = false }) w in
        let le = c.frame w v.gpib w.now (omega arith) in
        Returns-bind (λ t u. c.left u ≤ c.left v × (t ≡ false → c.left u + c.pace < c.left v))
          (λ t u. c.left u ≤ c.left w) (f v) _ (c.call v)
          λ t u k.
            let pin = pin-left u in
            round_end n ready t (ready (e.pins u.now)) (c.left w) (after_pin u)
              (omega (arith, le, k.0, pin))
              λ x.
                rest c.pace (after_pin u)
                  (tick_next c.pace u
                    (Coming-more c.pace (suc c.pace) u.now (omega arith) (beat u.now)))
                  (omega (arith, le, k.1 x, pin, lt))
    round n d ready w false due lt rest h =
        let v = on_timer (λ t. record t { ticked = false }) w in
        let le = c.frame w v.gpib w.now (omega arith) in
        let pin = pin-left v in
        let more = still_awaited d w h due in
        round_end n ready false (ready (e.pins v.now)) (c.left w) (after_pin v)
          (omega (arith, le, pin))
          λ x.
            rest more.0 (after_pin v) (tick_next more.0 v more.2)
              (omega (arith, le, pin, lt, more.1))

    slow_rounds :
        (n d : ℕ) (ready : Sample → Bool) (w : World)
        → Due d w
        → c.left w + d < n
        → Returns (λ t u. c.left u ≤ c.left w) (wait_rounds e n ready false f w)
    unfolding wait_rounds read_pin poll timer_ticked
    slow_rounds zero d ready w due lt = absurd (omega (arith, lt))
    slow_rounds (suc n) d ready w due lt =
        round n d ready w w.gpib.timer.ticked due lt (λ d' v. slow_rounds n d' ready v) refl

    -- The interrupt is at most `pace` accesses away when the wait begins.
    pub slow-Returns :
        (ready : Sample → Bool) (w : World)
        → c.left w + c.pace < e.polls
        → Returns (λ t u. c.left u ≤ c.left w) (wait_rounds e e.polls ready false f w)
    slow-Returns ready w lt = slow_rounds e.polls c.pace ready w (inr (beat w.now)) lt
