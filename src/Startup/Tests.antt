-- ===== src/Startup/Tests.antt =====
-- The theorems on the start-up at concrete states.
use usb_gpib.Gpib.Lines.{advance, read_pin}
use usb_gpib.Startup.Rounds.{Reach, here, next, round, moment, Reach-IsSound}
use usb_gpib.Transfer.Run.Parts.{IsSound}
use usb_gpib.Base.{ℕ, suc, zero, true, some, inl, ◌≡◌, refl, List, [], ◌∷◌, arith}
use usb_gpib.State.{World, Env}
use usb_gpib.Exec.{Returns, bind, Outcome, ret, waiting, fault, halted}
use usb_gpib.Samples.{ready_env, idle}
use usb_gpib.Parser.Commands.{cmd_store_term, cmd_term_store}
use usb_gpib.Transfer.Header.{Header}
use usb_gpib.Transfer.Task.{set_read_termination}
use usb_gpib.Device.Serial.{set_internal_serial}
use usb_gpib.Gpib.Commands.{gpib_is_connected}
use usb_gpib.Control.{usb_task}
use usb_gpib.Transfer.Task.{tmc_task}
use usb_gpib.Startup.{remember, shorten_serial, main_round, check_bootloader_entry, pulse, reset}
use usb_gpib.Startup.Remembered.{Remembers, remember-Remembers}
use usb_gpib.Startup.Pulse.{pulse_rounds, exceeded, pulse_rounds-exceeded}
use usb_gpib.Startup.Reported.{IsReported, shortened, internal_text, internal_serial-IsReported}
use usb_gpib.Startup.Termination.{effective, known, StartsWith, requested, termination_persists}

abbrev letters : ℕ → List ℕ
letters zero = []
letters (suc n) = 65 ∷ letters n

-- A device that was identified.
abbrev named : World
named = record idle { serial = record { size = 42; kind = 3; text = letters 50 } }

remember-Remembers_example : Returns (λ _ u. Remembers idle named u) (remember 9 true named)
remember-Remembers_example =
    remember-Remembers 9 named idle (record { room = refl; chars = omega arith })

abbrev asked : World
asked = record idle { tmc = record (idle.tmc) { pulse_indicator = 2 } }

pulse_rounds-exceeded_example :
    Returns
      (λ _ u. u.gpib.lines.led ≡ exceeded 255 (254 ∷ 255 ∷ 0 ∷ []))
      (pulse_rounds (253 ∷ 254 ∷ 255 ∷ 0 ∷ []) 0 asked)
pulse_rounds-exceeded_example = pulse_rounds-exceeded 253 (254 ∷ 255 ∷ 0 ∷ []) 0 asked refl

internal_serial-IsReported_example :
    Returns
      (λ _ u. IsReported (shortened idle.eeprom (internal_text ready_env true 1)) u)
      (bind (set_internal_serial ready_env true idle) (λ _. shorten_serial))
internal_serial-IsReported_example = internal_serial-IsReported ready_env true idle (omega arith)

-- A read request with LF as its termination.
abbrev read_request : Header
read_request = record {
  message_id = 2;
  tag = 1;
  inverse_tag = 254;
  reserved = 0;
  transfer_size = 64;
  last_message = 2;
  term_char = 10;
  reserved0 = 0;
  reserved1 = 0;
}

termination_persists_example :
    Returns (λ _ u. StartsWith (known 13) asked u) (cmd_store_term 13 idle)
    × Returns (λ _ u. StartsWith (known 10) asked u) (cmd_term_store idle)
    × Returns
        (λ _ u. effective u ≡ requested read_request)
        (set_read_termination ready_env read_request idle)
termination_persists_example = termination_persists ready_env 13 read_request idle asked

-- The state after a run.
abbrev state_of : World → Outcome ℕ → World
state_of w (ret n u) = u
state_of w waiting = w
state_of w fault = w
state_of w halted = w

-- A host that asks for a pulse of the indicator.
abbrev asking : Env
asking = record ready_env {
  control = λ n. some (record { request_type = 0xa1; request = 0x40; value = 0; index = 0 });
}

abbrev one_round : World
unfolding main_round tmc_task check_bootloader_entry pulse gpib_is_connected reset usb_task read_pin
one_round = state_of idle (main_round asking 0 idle)

-- A round of the main loop, and a moment later.
abbrev two_steps : Reach asking idle (advance (asking.pins one_round.now) one_round)
unfolding main_round tmc_task check_bootloader_entry pulse gpib_is_connected reset usb_task read_pin
two_steps =
    next one_round _ (next idle one_round here (round 0 0 idle one_round refl)) (moment one_round)

idle-IsSound : IsSound 0 255 idle.serial idle
idle-IsSound = record {
  settled = record {
    split = inl refl;
    response = record { size = refl; len_lt = omega arith; rpos_le = inl refl };
    address = record { byte = omega arith; primary_low = omega arith; primary_high = omega arith };
    eoi = refl;
    rom = refl;
    serial = refl;
  };
  complete = refl;
  busy = refl;
}

Reach-IsSound_example : IsSound 0 255 idle.serial (advance (asking.pins one_round.now) one_round)
Reach-IsSound_example =
    Reach-IsSound 0 255 idle.serial
      (
        λ h. absurd (omega (arith, h)),
        λ h. absurd (omega (arith, h)),
        λ h. absurd (omega (arith, h)),
      )
      asking idle _ idle-IsSound two_steps
