-- ===== src/Startup/Rounds.antt =====
-- The rounds of the main loop, and what holds in every state that they reach.
use usb_gpib.Base.{ℕ, false, not, ◌≡◌, refl, subst, ◌+◌, ◌%◌, ◌&&◌, ◌==◌, ltb, Bool-cases, inl, inr}
use usb_gpib.State.{World, Env, Gpib, Tmc, Usb, Serial}
use usb_gpib.Exec.{ret, pure, when}
use usb_gpib.Gpib.Lines.{advance, read_pin, on_lines, set_atn}
use usb_gpib.Gpib.Commands.{gpib_is_connected}
use usb_gpib.Parser.Commands.{jump_to_bootloader}
use usb_gpib.Control.{usb_task}
use usb_gpib.Transfer.Task.{tmc_task}
use usb_gpib.Transfer.Run.Guards.{Guards, Guards-bind, Guards-when, Guards-if, Partly}
use usb_gpib.Transfer.Run.Settled.{counted, usb_task-Keeps}
use usb_gpib.Transfer.Run.Commands.{IsNoSetting}
use usb_gpib.Transfer.Run.Parts.{IsSound, sound-Apart, Keeps-Guards}
use usb_gpib.Transfer.Run.Task.{task-Guards}
use usb_gpib.Startup.{check_bootloader_entry, pulse, reset, main_round}

-- A round of the loop of `main` that goes on to the next one, or a moment at which the timer interrupt may
-- run.
pub data Step (e : Env) : World → World → Type 0 where
  round : (start later : ℕ) (w u : World) → main_round e start w ≡ ret later u → Step e w u
  moment : (w : World) → Step e w (advance (e.pins w.now) w)

-- Any number of them, in any order.
pub data Reach (e : Env) (s : World) : World → Type 0 where
  here : Reach e s s
  next : (w u : World) → Reach e s w → Step e w u → Reach e s u

module _ (cell value : ℕ) (text : Serial) (other : IsNoSetting cell) (e : Env) where
  abbrev Sound : World → Type 0
  Sound = IsSound cell value text

  -- A change at the pins, of the pulse or on the USB side.
  changed :
      (w : World) (g : Gpib) (t : Tmc) (b : Usb)
      → (w.gpib.lines.eoi ≡ false → g.lines.eoi ≡ false)
      → counted.SameTmc w.tmc t
      → Sound w
      → Sound (record w { gpib = g; tmc = t; usb = b })
  changed w g t b low same h =
      sound-Apart cell value text other e w (record w { gpib = g; tmc = t; usb = b }) h
        (same, tt, refl, refl, refl, refl, refl, low)

  -- Time passes, and lines change.
  moved :
      (w : World) (g : Gpib) (n : ℕ)
      → (w.gpib.lines.eoi ≡ false → g.lines.eoi ≡ false)
      → Sound w
      → Sound (record w { gpib = g; now = n })
  moved w g n low h =
      sound-Apart cell value text other e w (record w { gpib = g; now = n }) h
        ((refl, refl, refl, λ x. x), tt, refl, refl, refl, refl, refl, low)

  entry-Guards : Guards Sound (check_bootloader_entry e)
  unfolding check_bootloader_entry jump_to_bootloader read_pin
  entry-Guards w h =
      Guards-when Sound (not (e.pins w.now).boot_key) jump_to_bootloader (λ u k. tt) _
        (moved w (advance (e.pins w.now) w).gpib (w.now + 1) (λ low. low) h)

  pulse-Guards : (start : ℕ) → Guards Sound (pulse start)
  unfolding pulse
  pulse-Guards start w h =
      Guards-if Sound (ltb 0 w.tmc.pulse_indicator) _ (pure start)
        (Guards-if Sound (w.tmc.pulse_indicator == 2) _ _
          (λ u k. changed u _ _ u.usb (λ low. low) (refl, refl, refl, λ x. x) k)
          (Guards-if Sound (ltb ((2 + start) % 256) w.gpib.timer.count_100ms) _ (pure start)
            (λ u k. changed u _ _ u.usb (λ low. low) (refl, refl, refl, λ x. x) k) λ u k. k))
        (λ u k. k) w h

  connected-Guards : Guards Sound (gpib_is_connected e)
  unfolding gpib_is_connected read_pin
  connected-Guards w h = elim (Bool-cases (w.gpib.lines.atn && w.gpib.transaction_active)) [
    | inl active ↦ rw active h
    | inr inactive ↦
        let v = on_lines (set_atn false) w in
        rw inactive (moved w (advance (e.pins w.now) v).gpib (w.now + 1) (λ low. low) h)
  ]

  round-Guards : (start : ℕ) → Guards Sound (main_round e start)
  unfolding main_round reset
  round-Guards start w h =
      Guards-bind Sound (tmc_task e) _ (task-Guards cell value text other e)
        (λ _. Guards-bind Sound (check_bootloader_entry e) _ entry-Guards λ _.
          Guards-bind Sound (pulse start) _ (pulse-Guards start) λ s.
            Guards-bind Sound (gpib_is_connected e) _ connected-Guards λ c.
              Guards-bind Sound (when (not c) _) _
                (λ u k. Guards-when Sound (not c) _ (λ v r. tt) u k)
                λ _.
                  Guards-bind Sound (usb_task e) _
                    (Keeps-Guards cell value text other e (usb_task e) (usb_task-Keeps e))
                    λ _ u k. k)
        w h

  step-IsSound : (w u : World) → Step e w u → Sound w → Sound u
  step-IsSound w u (round start later _ _ run) h =
      subst (Partly (λ _ v. Sound v)) run (round-Guards start w h)
  step-IsSound w u (moment _) h = moved w (advance (e.pins w.now) w).gpib (w.now + 1) (λ low. low) h

  -- Whatever bytes and control requests the host sends, whatever the devices on the bus do and at whatever
  -- moments the timer interrupts come, the state after any number of rounds of the main loop is valid, if it
  -- is so at the start, where the cell is none of the three that hold settings: no split request or one of
  -- the three is in progress, the pending response lies inside its buffer of eight bytes, the address of the
  -- device is a valid one, EOI is not driven between two bytes, a message is complete exactly where no byte
  -- of it is left, a write is busy while bytes are left, and the EEPROM cell and the serial number are as
  -- they were.
  pub Reach-IsSound : (s w : World) → Sound s → Reach e s w → Sound w
  Reach-IsSound s w h here = h
  Reach-IsSound s w h (next v _ r step) = step-IsSound v w step (Reach-IsSound s v h r)
