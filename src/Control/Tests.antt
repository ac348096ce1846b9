-- ===== src/Control/Tests.antt =====
-- The theorems on the control requests at concrete requests.
use usb_gpib.Base.{refl}
use usb_gpib.State.{Request}
use usb_gpib.Exec.{Ensures, Returns}
use usb_gpib.Samples.{ready_env, idle, writing}
use usb_gpib.Control.{control_request, handle_read_status_byte, tmc_timedout, class_interface}
use usb_gpib.Control.Quiet.{IsUntouched, tmc_timedout-IsUntouched}
use usb_gpib.Control.Split.{SplitStep, control_request-SplitStep}
use usb_gpib.Control.Status.{IsAnswered, handle_read_status_byte-IsAnswered}

tmc_timedout-IsUntouched_example :
    Returns (λ _ u. IsUntouched writing u) (tmc_timedout ready_env writing)
tmc_timedout-IsUntouched_example = tmc_timedout-IsUntouched ready_env writing refl

-- INITIATE_CLEAR
abbrev clear_request : Request
clear_request = record { request_type = class_interface; request = 5; value = 0; index = 0 }

control_request-SplitStep_example :
    Ensures
      (λ _ u. SplitStep clear_request idle.tmc u.tmc.request_in_progress)
      (control_request ready_env clear_request idle)
control_request-SplitStep_example = control_request-SplitStep ready_env clear_request idle

handle_read_status_byte-IsAnswered_example :
    Ensures (λ _ u. IsAnswered ready_env idle u) (handle_read_status_byte ready_env idle)
handle_read_status_byte-IsAnswered_example = handle_read_status_byte-IsAnswered ready_env idle
