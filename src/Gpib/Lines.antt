-- ===== src/Gpib/Lines.antt =====
-- The bus lines and the timer of SW/TestAndMeasurement: the macros of gpib_priv.h, the timer
-- interrupt, and the start of gpib.c's functions.
use usb_gpib.Base.{Bool, true, false, [], ◌∷◌, ◌++◌, ◌+◌, ◌%◌, leb, if◌then◌else◌}
use usb_gpib.State.{
  World, Gpib, Lines, Timer, Sample, Env, BusEvent, interface_clear, remote, disconnected,
  connected,
}
use usb_gpib.Exec.{M, ret, modify, ◌>>◌}

-- Change the lines, the timer, or the log.
abbrev pub on_lines : (Lines → Lines) → World → World
on_lines f w = record w { gpib = record (w.gpib) { lines = f w.gpib.lines } }

abbrev pub on_timer : (Timer → Timer) → World → World
on_timer f w = record w { gpib = record (w.gpib) { timer = f w.gpib.timer } }

abbrev pub observe : BusEvent → World → World
observe b w = record w { gpib = record (w.gpib) { log = w.gpib.log ++ (b ∷ []) } }

abbrev pub set_transaction : Bool → World → World
set_transaction b w = record w { gpib = record (w.gpib) { transaction_active = b } }

-- `true` is `_LOW`, `false` is `_HIGH`.
abbrev pub set_atn : Bool → Lines → Lines
set_atn b l = record l { atn = b }

abbrev pub set_ndac : Bool → Lines → Lines
set_ndac b l = record l { ndac = b }

abbrev pub set_nrfd : Bool → Lines → Lines
set_nrfd b l = record l { nrfd = b }

abbrev pub set_dav : Bool → Lines → Lines
set_dav b l = record l { dav = b }

abbrev pub set_eoi : Bool → Lines → Lines
set_eoi b l = record l { eoi = b }

abbrev pub set_led : Bool → Lines → Lines
set_led b l = record l { led = b }

-- The disconnect detection of the timer interrupt, for one call every 100 ms: `pin` is ATN_STATE.
abbrev pub detect : Bool → Bool → Bool → Timer → Timer
detect active atn_low pin t =
    if active
    then t
    else if atn_low
    then record t { disconnect_counter = 0 }
    else if pin
    then record t { disconnect_counter = 0; device_state = connected }
    else if leb 2 t.disconnect_counter
    then record t { device_state = disconnected }
    else record t { disconnect_counter = (t.disconnect_counter + 1) % 256 }

-- ISR (TIMER0_OVF_vect)
abbrev pub timer0_isr : Bool → Gpib → Timer
timer0_isr pin g =
    let t = record (g.timer) { div = (g.timer.div + 1) % 256; ticked = true } in
    if leb 6 t.div
    then detect g.transaction_active g.lines.atn pin
        (record t { count_100ms = (t.count_100ms + 1) % 256; div = 0 })
    else t

-- Time passes up to an access to the pins: the interrupt runs if it came before it.
abbrev pub advance : Sample → World → World
advance s w = record w {
  gpib = record (w.gpib) { timer = if s.tick then timer0_isr s.atn w.gpib else w.gpib.timer };
  now = w.now + 1;
}

-- `timer_ticked`
unfoldable pub timer_ticked : M Bool
timer_ticked w = ret w.gpib.timer.ticked (on_timer (λ t. record t { ticked = false }) w)

-- `gpib_interface_clear`
unfoldable pub gpib_interface_clear : M (Unit {0})
gpib_interface_clear = do
  modify (on_lines (set_nrfd false))
  modify (on_lines (λ l. record l { ifc = true }))
  modify (on_lines (λ l. record l { ifc = false }))
  modify (observe interface_clear)
  modify (set_transaction false)

-- `timer_init`
abbrev pub timer_init : Timer → Timer
timer_init t = record t { div = 0; count_100ms = 0 }

-- The direction registers after `gpib_init`: every line is released but REN.
abbrev pub released : Lines → Lines
released l = record l {
  atn = false;
  ndac = false;
  nrfd = false;
  dav = false;
  eoi = false;
  ren = true;
  ifc = false;
  dio = 0;
}

-- `gpib_init`
unfoldable pub gpib_init : M (Unit {0})
unfolding gpib_interface_clear
gpib_init = do
  modify (on_lines released)
  modify (observe (remote true))
  modify (set_transaction false)
  modify (on_timer (λ t. record t { disconnect_counter = 0 }))
  gpib_interface_clear
  modify (on_timer timer_init)

-- `gpib_recover`
unfoldable pub gpib_recover : M (Unit {0})
unfolding gpib_init
gpib_recover = gpib_init

-- `gpib_ren`
unfoldable pub gpib_ren : Bool → M (Unit {0})
gpib_ren enable = do
  modify (on_lines (λ l. record l { ren = enable }))
  modify (observe (remote enable))

-- One access to a port register.
module _ {A : Type 0} (e : Env) where
  unfoldable pub read_pin : (Sample → A) → M A
  read_pin pin w = ret (pin (e.pins w.now)) (advance (e.pins w.now) w)
