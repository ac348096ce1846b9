-- ===== src/Transfer/Tests.antt =====
-- The theorems on the transfers at concrete buffers.
use usb_gpib.Base.{ℕ, true, some, ◌≡◌, refl, [], ◌∷◌, ◌++◌, ◌≤◌, length, codes, inr, arith}
use usb_gpib.State.{Env, World, Request, Response}
use usb_gpib.Exec.{Ensures, Returns}
use usb_gpib.Samples.{ready_env, ready_pins, surroundings, idle}
use usb_gpib.Control.{tmc_timedout}
use usb_gpib.Endpoint.{in_ep}
use usb_gpib.Control.Watch.{IsOther}
use usb_gpib.Parser.Settings.{IsResponse, pending}
use usb_gpib.Transfer.{process_sent_message, get_next_message}
use usb_gpib.Transfer.Task.{next_response, tmc_task}
use usb_gpib.Transfer.Task.Steps.{IsReset}
use usb_gpib.Transfer.Task.Returned.{tmc_task-Returns}
use usb_gpib.Transfer.Response.{next_response-pending}
use usb_gpib.Transfer.Gathered.{IsGathered, get_next_message-IsGathered}
use usb_gpib.Transfer.Interrupted.{IsDelivered, process_sent_message-IsDelivered}
use usb_gpib.Transfer.Stream.{write_stream_quick, write_stream_plain}
use usb_gpib.Transfer.Stream.Payload.{IsHanded, streams-IsHanded}

streams-IsHanded_example :
    Ensures
      (IsHanded (7 ∷ 8 ∷ 9 ∷ []) idle)
      (write_stream_quick ready_env (7 ∷ 8 ∷ 9 ∷ []) 2 64 idle)
    × Ensures (IsHanded (7 ∷ 8 ∷ 9 ∷ []) idle) (write_stream_plain ready_env (7 ∷ 8 ∷ 9 ∷ []) idle)
streams-IsHanded_example = streams-IsHanded ready_env (7 ∷ 8 ∷ 9 ∷ []) 2 64 idle

-- Waits that are followed for longer than the countdown of SDC.
abbrev patient : Env
patient = record ready_env { polls = 60000 }

-- The message "HI" and a line feed, in one transfer.
abbrev hello : Env
hello = surroundings ready_pins (codes "HI\n")

-- A host that asks for a pulse of the indicator at every moment.
abbrev pulse_request : Request
pulse_request = record { request_type = 0xa1; request = 0x40; value = 0; index = 0 }

abbrev pulsing : Env
pulsing = record hello { control = λ n. some pulse_request }

only_pulses : (n : ℕ) → IsOther (pulsing.control n)
only_pulses n same = absurd (omega arith)

process_sent_message-IsDelivered_example :
    Ensures
      (λ _ u. IsDelivered pulsing 3 true true true idle u)
      (process_sent_message pulsing 3 true true true (tmc_timedout pulsing) idle)
process_sent_message-IsDelivered_example =
    process_sent_message-IsDelivered pulsing 3 true true true idle only_pulses refl refl refl

-- A clear is in progress.
abbrev clearing : World
clearing = record idle { tmc = record (idle.tmc) { request_in_progress = 5 } }

-- "slow", of which one byte was read.
abbrev answer : Response
answer = record { buffer = codes "slow    "; len = 4; rpos = 1 }

next_response-pending_example :
    ((next_response 2 answer).0 ++ pending (next_response 2 answer).1 ≡ pending answer)
    × (length (next_response 2 answer).0 ≤ 2)
    × IsResponse (next_response 2 answer).1
next_response-pending_example =
    next_response-pending 2 answer
      (record { size = refl; len_lt = omega arith; rpos_le = omega arith })

get_next_message-IsGathered_example :
    Ensures
      (λ r u. IsGathered 4 true idle r u)
      (get_next_message pulsing 4 true (tmc_timedout pulsing) idle)
get_next_message-IsGathered_example = get_next_message-IsGathered pulsing 4 true idle only_pulses

-- A host that asks for the status byte at every moment.
abbrev status_request : Request
status_request = record { request_type = 0xa1; request = 0x80; value = 2; index = 0 }

abbrev watching : Env
watching = record hello { control = λ n. some status_request }

-- A host that asks for an abort at every moment, while the timer interrupt comes at each access to the pins.
abbrev abort_request : Request
abort_request = record { request_type = 0xa2; request = 0x03; value = 0; index = in_ep }

abbrev aborting : Env
aborting = record ready_env {
  pins = λ n. record (ready_pins n) { tick = true };
  control = λ n. some abort_request;
  polls = 200000;
}

aborting_others : (n : ℕ) → IsOther (aborting.control n)
aborting_others n same = absurd (omega arith)

tmc_task-Returns_example : Returns (λ _ u. IsReset u) (tmc_task aborting idle)
tmc_task-Returns_example =
    tmc_task-Returns aborting (omega arith) (λ n h. refl) aborting_others 0 1
      (λ n h. (inr refl, refl, inr refl)) (λ n. (0, omega arith, refl)) (omega arith) idle refl refl
      (omega arith)
