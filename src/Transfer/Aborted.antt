-- ===== src/Transfer/Aborted.antt =====
-- The three split requests: a clear, and the aborts of a bulk transfer out and in.
pub mod Answers
use usb_gpib.Base.{ℕ, Bool, true, ◌≡◌, refl, List, ◌||◌, ◌<◌, Bool-cases, inl, inr}
use usb_gpib.State.{World, Env, Tmc}
use usb_gpib.Exec.{Returns, Returns-bind}
use usb_gpib.Control.{check_status, req_initiate_clear, success, status_pending}
use Answers.{Tells}
use usb_gpib.Transfer.Reset.{tmc_resetstates, serve_sdc, serve_reset, end_task}
use usb_gpib.Transfer.Cleared.{flushed, when_holds, Served, serve_sdc-Served}

-- The statuses of a split request with this number that was accepted in the state `w`, and its end.
record Settles (e : Env) (req : ℕ) (is_busy : Tmc → Bool) (check : World → World) (w : World)
    : Type 0 where
  pub pending : check_status req (is_busy w.tmc) w.tmc ≡ status_pending
  pub running : (check w).tmc.request_in_progress ≡ req
  pub completed :
      Returns
        (λ _ u.
          (check_status req (is_busy u.tmc) u.tmc ≡ success)
          × ((check u).tmc.request_in_progress ≡ 0))
        (end_task e w)

-- A split request with this number. Its start is answered with these bytes. Before the main loop a check
-- reports that it is pending and leaves it in progress; the end of `TMC_Task` returns, whatever the bus
-- does; and the next check reports a success and ends it.
pub record Completes (e : Env) (req : ℕ) (start check : World → World) (answer : List ℕ)
    (report : ℕ → World → List ℕ) (w : World) : Type 0 where
  pub accepted : Tells start answer w
  pub pending : Tells check (report 0x02 (start w)) (start w)
  pub running : (check (start w)).tmc.request_in_progress ≡ req
  pub completed :
      Returns
        (λ _ u. Tells check (report 0x01 u) u × ((check u).tmc.request_in_progress ≡ 0))
        (end_task e (start w))

module _ (e : Env) (long : 50000 < e.polls) where
  -- SDC is sent where it was asked for.
  sdc_if_asked : (w : World) → Returns (Served e long w) (serve_sdc e w)
  unfolding serve_sdc
  sdc_if_asked w = elim (Bool-cases w.tmc.handle_sdc) [
    | inl asked ↦ serve_sdc-Served e long w asked
    | inr quiet ↦ rw quiet (refl, refl)
  ]

  pub reset-Served :
      (w : World)
      → (w.tmc.out_reset || w.tmc.in_reset) ≡ true
      → Returns (Served e long w) (serve_reset e w)
  unfolding serve_reset tmc_resetstates
  reset-Served w reset =
      when_holds (Served e long w) (w.tmc.out_reset || w.tmc.in_reset) _ w reset (
        Returns-bind (Served e long (flushed e long w)) (Served e long w)
          (serve_sdc e (flushed e long w)) _ (sdc_if_asked (flushed e long w)) λ _ u h. (refl, h.1))
