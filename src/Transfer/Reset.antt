-- ===== src/Transfer/Reset.antt =====
-- `TMC_resetstates`, and the last part of `TMC_Task`, which ends an abort or a clear.
use usb_gpib.Base.{true, false, ◌||◌}
use usb_gpib.State.{Env, clear_out, abort_in}
use usb_gpib.Exec.{M, modify, gets, when, ◌>>=◌, ◌>>◌}
use usb_gpib.Endpoint.{on_tmc, show, select, in_ep, out_ep}
use usb_gpib.Gpib.Lines.{gpib_ren, gpib_interface_clear}
use usb_gpib.Gpib.Timeouts.{timeout_start, is_timedout}
use usb_gpib.Gpib.Commands.{gpib_sdc}

-- `TMC_resetstates`
unfoldable pub tmc_resetstates : M (Unit {0})
unfolding gpib_interface_clear
tmc_resetstates = do
  modify (λ w. record w { response = record (w.response) { len = 0 } })
  modify (
      on_tmc (λ t. record t {
        handle_ren_control = 0;
        handle_go_to_local = false;
        handle_sdc = false;
        handle_local_lockout = false;
        handle_read_status = false;
        last_complete = true;
        in_complete = true;
        remaining = 0;
      }))
  gpib_interface_clear

module _ (e : Env) where
  -- `if (handleSDC)`, in two places of `TMC_Task`.
  unfoldable pub serve_sdc : M (Unit {0})
  unfolding gpib_ren timeout_start
  serve_sdc = do
    asked ← gets (λ w. w.tmc.handle_sdc)
    when asked (do
      gpib_ren true
      timeout_start 50000
      addr ← gets (λ w. w.gpib_addr)
      t ← gpib_sdc e addr is_timedout
      modify (on_tmc (λ t. record t { handle_sdc = false })))

  -- `if (IsTMCBulkOUTReset || IsTMCBulkINReset)`
  unfoldable pub serve_reset : M (Unit {0})
  unfolding serve_sdc tmc_resetstates
  serve_reset = do
    reset ← gets (λ w. w.tmc.out_reset || w.tmc.in_reset)
    when reset (do
      modify (select out_ep)
      modify (show clear_out)
      modify (show clear_out)
      modify (select in_ep)
      modify (show abort_in)
      serve_sdc
      tmc_resetstates)

  -- The abort flags are reset after it.
  unfoldable pub end_task : M (Unit {0})
  unfolding serve_reset
  end_task = do serve_reset; modify (on_tmc (λ t. record t { in_reset = false; out_reset = false }))
