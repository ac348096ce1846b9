-- ===== src/Startup/Pulse.antt =====
-- The pulse indicator over many rounds of the loop of `main`.
use usb_gpib.Base.{
  ℕ, Bool, true, false, ◌≡◌, refl, List, [], ◌∷◌, ◌+◌, ◌%◌, ltb, if◌then◌else◌, Bool-cases, inl,
  inr,
}
use usb_gpib.State.{World}
use usb_gpib.Exec.{M, pure, modify, Returns, ◌>>=◌, ◌>>◌}
use usb_gpib.Gpib.Lines.{on_timer}
use usb_gpib.Startup.{pulse}

-- `timer0_100mscounter` as a round finds it.
abbrev count_is : ℕ → World → World
count_is c = on_timer (λ t. record t { count_100ms = c })

-- One round for each value of the counter.
abbrev pub pulse_rounds : List ℕ → ℕ → M ℕ
pulse_rounds [] start = pure start
pulse_rounds (c ∷ cs) start = do modify (count_is c); start' ← pulse start; pulse_rounds cs start'

-- One of the values is larger.
abbrev pub exceeded : ℕ → List ℕ → Bool
exceeded n [] = false
exceeded n (c ∷ cs) = if ltb n c then true else exceeded n cs

-- No pulse is under way any more.
rounds_over :
    (cs : List ℕ) (start : ℕ) (w : World)
    → w.tmc.pulse_indicator ≡ 0
    → w.gpib.lines.led ≡ true
    → Returns (λ _ u. u.gpib.lines.led ≡ true) (pulse_rounds cs start w)
unfolding pulse
rounds_over [] start w none on = on
rounds_over (c ∷ cs) start w none on = simp none (rounds_over cs start (count_is c w) none on)

-- The LED is off.
rounds_off :
    (cs : List ℕ) (start : ℕ) (w : World)
    → w.tmc.pulse_indicator ≡ 1
    → w.gpib.lines.led ≡ false
    → Returns (λ _ u. u.gpib.lines.led ≡ exceeded ((2 + start) % 256) cs) (pulse_rounds cs start w)
unfolding pulse
rounds_off [] start w one off = off
rounds_off (c ∷ cs) start w one off = elim (Bool-cases (ltb ((2 + start) % 256) c)) [
  | inl over ↦ simp (one, over) (rounds_over cs start _ refl refl)
  | inr not_yet ↦ simp (one, not_yet) (rounds_off cs start (count_is c w) one off)
]

-- Where a pulse is asked for, the 100 ms counter is `s` and nothing but the pulse changes the LED:
-- after the rounds that follow, the LED is on exactly if one of them has found the counter above
-- `(2 + s) % 256`. For `s` up to 252
-- that is the third step of the counter; for 253 the bound is 255, which no value of a uint8_t is
-- above, and the LED stays off.
pub pulse_rounds-exceeded :
    (s : ℕ) (cs : List ℕ) (start : ℕ) (w : World)
    → w.tmc.pulse_indicator ≡ 2
    → Returns
        (λ _ u. u.gpib.lines.led ≡ exceeded ((2 + s) % 256) cs)
        (pulse_rounds (s ∷ cs) start w)
unfolding pulse
pulse_rounds-exceeded s cs start w two = rw two (rounds_off cs s _ refl refl)
