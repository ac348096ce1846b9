-- ===== src/Gpib/Connection.antt =====
-- The detection of a disconnected device in the timer interrupt of gpib.c, as a state machine.
use usb_gpib.Base.{ℕ, zero, suc, Bool, false, ◌≡◌, ◌∙◌, ◌+◌, ◌*◌, ◌≤◌, if◌then◌else◌, leb, arith}
use usb_gpib.State.{Gpib, Timer, ConnectState, disconnected}
use usb_gpib.Gpib.Lines.{timer0_isr, timer_init}

-- One interrupt; `pin` is ATN_STATE.
abbrev pub interrupt : Bool → Gpib → Gpib
interrupt pin g = record g { timer = timer0_isr pin g }

-- A number of interrupts in a row with ATN low.
abbrev pub interrupts_low : ℕ → Gpib → Gpib
interrupts_low zero g = g
interrupts_low (suc n) g = interrupts_low n (interrupt false g)

-- The timers that interrupts, whatever the pins and the transaction flag are, and `gpib_init` lead to.
pub data Reached (s : Timer) : Timer → Type 0 where
  at_start : Reached s s
  ticked : (pin : Bool) (g : Gpib) → Reached s g.timer → Reached s (timer0_isr pin g)
  initialised :
      {t : Timer} → Reached s t → Reached s (record (timer_init t) { disconnect_counter = 0 })

-- Less than 100 ms are counted, and the counter of low samples has not passed 2.
pub record IsCounting (t : Timer) : Type 0 where
  pub division : t.div ≤ 5
  pub low_samples : t.disconnect_counter ≤ 2

isr-IsCounting : (pin : Bool) (g : Gpib) → IsCounting g.timer → IsCounting (timer0_isr pin g)
isr-IsCounting pin g h = ground (arith, h.division, h.low_samples)

-- Where the counters of the disconnect detection are in range, `div` at most 5 and the low samples at
-- most 2, they stay so whatever interrupts and initialisations follow.
pub Reached-IsCounting : {s t : Timer} → IsCounting s → Reached s t → IsCounting t
Reached-IsCounting start at_start = start
Reached-IsCounting start (ticked pin g r) = isr-IsCounting pin g (Reached-IsCounting start r)
Reached-IsCounting start (initialised r) =
    let h = Reached-IsCounting start r in
    record { division = omega arith; low_samples = omega arith }

-- The interrupts since ATN was seen high, as far as they are counted.
abbrev pub low_time : Timer → ℕ
low_time t = 6 * t.disconnect_counter + t.div

-- The state once the interrupts that are given have made up three samples.
abbrev pub state_after : ℕ → ConnectState → ConnectState
state_after n s = if leb 18 n then disconnected else s

low_step :
    (g : Gpib) (n : ℕ)
    → g.transaction_active ≡ false
    → g.lines.atn ≡ false
    → IsCounting g.timer
    → state_after (low_time (timer0_isr false g) + n) (timer0_isr false g).device_state
      ≡ state_after (low_time g.timer + suc n) g.timer.device_state
low_step g n idle free h = ground (arith, idle, free, h.division, h.low_samples)

-- While no transaction is active and ATN is not driven, and both counters are in range, a run of
-- interrupts with ATN low makes the device disconnected once 18 interrupts, which is three samples,
-- are counted with those of before the run, and keeps its state until then.
pub interrupts_low-state :
    (n : ℕ) (g : Gpib)
    → g.transaction_active ≡ false
    → g.lines.atn ≡ false
    → IsCounting g.timer
    → (interrupts_low n g).timer.device_state
      ≡ state_after (low_time g.timer + n) g.timer.device_state
interrupts_low-state zero g idle free h = ground (arith, h.division, h.low_samples)
interrupts_low-state (suc n) g idle free h =
    interrupts_low-state n (interrupt false g) idle free (isr-IsCounting false g h)
    ∙ low_step g n idle free h
