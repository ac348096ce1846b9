-- ===== src/Gpib/Tests.antt =====
-- The theorems on the bus with a device that is always ready, at address 5.
use usb_gpib.Base.{true, false, refl, ◌≡◌, ◌+◌, [], ◌∷◌, ◌≤◌, arith}
use usb_gpib.State.{Gpib, connected, command}
use usb_gpib.Exec.{Ensures, Returns}
use usb_gpib.Samples.{ready_env, idle}
use usb_gpib.Gpib.Timeouts.{IsWatch, is_timedout, main_countdown, countdown-IsWatch}
use usb_gpib.Gpib.Sequence.{Ends}
use usb_gpib.Gpib.Connection.{
  interrupt, interrupts_low, state_after, low_time, Reached, IsCounting, Reached-IsCounting,
  interrupts_low-state,
}
use usb_gpib.Gpib.Commands.{
  gpib_make_listener, gpib_make_talker, gpib_untalk_unlisten, gpib_goto_local, gpib_trigger,
  gpib_sdc, gpib_local_lockout, gpib_read_status_byte,
}
use usb_gpib.Gpib.Commands.Address.{address_bytes}
use usb_gpib.Gpib.Commands.Roles.{addressed, addressing-Ends, sequences-Ends}
use usb_gpib.Gpib.Commands.Poll.{polled, Polled, read_status_byte-Polled}
use usb_gpib.Gpib.Commands.Total.{addressing-Returns}

abbrev watch : IsWatch is_timedout
watch = countdown-IsWatch main_countdown

addressing-Ends_example :
    Ensures
      (Ends watch (command 0x5f ∷ command 0x40 ∷ command 0x3f ∷ address_bytes 0x20 5) idle)
      (gpib_make_listener ready_env 5 is_timedout idle)
    × Ensures
        (Ends watch (command 0x3f ∷ command 0x20 ∷ address_bytes 0x40 5) idle)
        (gpib_make_talker ready_env 5 is_timedout idle)
addressing-Ends_example = addressing-Ends ready_env watch 5 idle

sequences-Ends_example :
    Ensures
      (Ends watch (command 0x3f ∷ command 0x5f ∷ []) idle)
      (gpib_untalk_unlisten ready_env is_timedout idle)
    × Ensures (Ends watch (addressed 5 0x01) idle) (gpib_goto_local ready_env 5 is_timedout idle)
    × Ensures (Ends watch (addressed 5 0x08) idle) (gpib_trigger ready_env 5 is_timedout idle)
    × Ensures (Ends watch (addressed 5 0x04) idle) (gpib_sdc ready_env 5 is_timedout idle)
    × Ensures (Ends watch (command 0x11 ∷ []) idle) (gpib_local_lockout ready_env is_timedout idle)
sequences-Ends_example = sequences-Ends ready_env watch 5 idle

read_status_byte-Polled_example :
    Ensures (Polled (polled 5) idle) (gpib_read_status_byte ready_env 5 is_timedout idle)
read_status_byte-Polled_example = read_status_byte-Polled ready_env watch 5 idle

addressing-Returns_example :
    Returns (λ t u. u.timeouts.main ≤ 3) (gpib_make_listener ready_env 5 is_timedout idle)
    × Returns (λ t u. u.timeouts.main ≤ 3) (gpib_make_talker ready_env 5 is_timedout idle)
    × Returns (λ s u. u.timeouts.main ≤ 3) (gpib_read_status_byte ready_env 5 is_timedout idle)
unfolding is_timedout
addressing-Returns_example = addressing-Returns ready_env main_countdown 5 idle (omega arith)

abbrev attached : Gpib
attached = record (idle.gpib) { timer = record (idle.gpib.timer) { device_state = connected } }

counting : IsCounting attached.timer
counting = record { division = omega arith; low_samples = omega arith }

interrupts_low-state_example :
    (interrupts_low 18 attached).timer.device_state
    ≡ state_after (low_time attached.timer + 18) attached.timer.device_state
interrupts_low-state_example = interrupts_low-state 18 attached refl refl counting

Reached-IsCounting_example : IsCounting (interrupt false (interrupt true attached)).timer
Reached-IsCounting_example =
    Reached-IsCounting counting (
      Reached.ticked false (interrupt true attached)
        (Reached.ticked true attached Reached.at_start))
