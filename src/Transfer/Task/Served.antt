-- ===== src/Transfer/Task/Served.antt =====
-- What `TMC_Task` does between two messages before it reads the next one: it returns.
use usb_gpib.Base.{
  Bool, true, false, not, ◌≡◌, refl, sym, ◌∙◌, ap, subst, ◌≤◌, ◌<◌, ◌&&◌, ◌==◌, length, arith,
}
use usb_gpib.State.{World, Env, Response, remote}
use usb_gpib.Exec.{
  M, modify, gets, when, ◌>>=◌, ◌>>◌, Returns, Returns-bind, Returns-weaken, Returns-Ensures,
}
use usb_gpib.Endpoint.{on_tmc}
use usb_gpib.Gpib.Lines.{read_pin, gpib_ren, observe, on_lines}
use usb_gpib.Gpib.Timeouts.{timeout_start, is_timedout, main_countdown, countdown-IsFinite}
use usb_gpib.Gpib.Handshake.Apart.{same, Apart, Keeps, countdown-Keeps}
use usb_gpib.Gpib.Handshake.Total.{Total}
use usb_gpib.Gpib.Commands.{gpib_read_status_byte, gpib_local_lockout, gpib_goto_local, gpib_sdc}
use usb_gpib.Gpib.Commands.Total.{
  read_status_byte-Total, local_lockout-Total, goto_local-Total, sdc-Total,
}
use usb_gpib.Gpib.Commands.Apart.{
  read_status_byte-Keeps, local_lockout-Keeps, goto_local-Keeps, sdc-Keeps,
}
use usb_gpib.Transfer.Reset.{serve_sdc}
use usb_gpib.Transfer.Task.{notify, serve_srq, serve_lockout, serve_local}

-- The next message is no internal command, and the response to one fits its buffer.
abbrev pub IsPlain : World → Type 0
IsPlain w = (w.tmc.parameter_set ≡ false) × (length w.response.buffer ≤ 8)

-- It returns, and that stays so.
abbrev pub Stays : {A : Type 0} → M A → Type 0
Stays m = (w : World) → IsPlain w → Returns (λ _ u. IsPlain u) (m w)

pub Stays-when : (b : Bool) (m : M (Unit {0})) → Stays m → Stays (when b m)
Stays-when true m h = h
Stays-when false m h = λ w p. p

module _ (e : Env) (long : 150000 < e.polls) where
  -- A sequence of commands with a countdown of 50000.
  timed :
      {A : Type 0} (m : M A) (v : World)
      → Total e (countdown-IsFinite main_countdown) m
      → Keeps same m
      → v.timeouts.main ≡ 50000
      → IsPlain v
      → Returns (λ _ u. IsPlain u) (m v)
  unfolding is_timedout
  timed m v total keeps main p =
      Returns-weaken (λ _ u. Apart same v u) (λ _ u. IsPlain u) (m v)
        (Returns-Ensures _ (λ _ u. Apart same v u) (m v) (total v (omega (arith, long, main)))
          (keeps v))
        λ _ u a. (
          ap (λ t. t.parameter_set) a.0 ∙ p.0,
          subst (λ (r : Response). length r.buffer ≤ 8) (sym a.3) p.1,
        )

  -- The state when a countdown of 50000 was started.
  abbrev started : World → World
  started w = record w { timeouts = record (w.timeouts) { main = 50000 } }

  pub srq-Stays : Stays (serve_srq e)
  unfolding serve_srq notify timeout_start read_pin
  srq-Stays w p =
      Stays-when (not (e.pins w.now).srq) _
        (λ v q.
          Returns-bind (λ _ u. IsPlain u) (λ _ u. IsPlain u)
            (gpib_read_status_byte e v.gpib_addr is_timedout (started v)) _
            (timed (gpib_read_status_byte e v.gpib_addr is_timedout) (started v)
              (read_status_byte-Total e (countdown-IsFinite main_countdown) v.gpib_addr)
              (read_status_byte-Keeps same e is_timedout (countdown-Keeps same main_countdown)
                v.gpib_addr)
              refl q)
            λ status u r. r)
        _ p

  pub lockout-Stays : Stays (serve_lockout e)
  unfolding serve_lockout timeout_start
  lockout-Stays w p =
      Stays-when w.tmc.handle_local_lockout _
        (λ v q.
          Returns-bind (λ _ u. IsPlain u) (λ _ u. IsPlain u)
            (gpib_local_lockout e is_timedout (started v)) _
            (timed (gpib_local_lockout e is_timedout) (started v)
              (local_lockout-Total e (countdown-IsFinite main_countdown))
              (local_lockout-Keeps same e is_timedout (countdown-Keeps same main_countdown)) refl q)
            λ t u r. r)
        w p

  pub sdc-Stays : Stays (serve_sdc e)
  unfolding serve_sdc timeout_start gpib_ren
  sdc-Stays w p =
      Stays-when w.tmc.handle_sdc _
        (λ v q.
          let x = record (observe (remote true) (on_lines (λ l. record l { ren = true }) v)) {
            timeouts = record (v.timeouts) { main = 50000 };
          } in
          Returns-bind (λ _ u. IsPlain u) (λ _ u. IsPlain u) (gpib_sdc e v.gpib_addr is_timedout x)
            _
            (timed (gpib_sdc e v.gpib_addr is_timedout) x
              (sdc-Total e (countdown-IsFinite main_countdown) v.gpib_addr)
              (sdc-Keeps same e is_timedout (countdown-Keeps same main_countdown) v.gpib_addr) refl
              q)
            λ t u r. r)
        w p

  -- `if (handleGoToLocal)`
  to_local-Stays : Stays (do
    local ← gets (λ w. w.tmc.handle_go_to_local)
    when local (do
      timeout_start 50000
      addr ← gets (λ w. w.gpib_addr)
      t ← gpib_goto_local e addr is_timedout
      modify (on_tmc (λ t. record t { handle_go_to_local = false }))))
  unfolding timeout_start
  to_local-Stays w p =
      Stays-when w.tmc.handle_go_to_local _
        (λ v q.
          Returns-bind (λ _ u. IsPlain u) (λ _ u. IsPlain u)
            (gpib_goto_local e v.gpib_addr is_timedout (started v)) _
            (timed (gpib_goto_local e v.gpib_addr is_timedout) (started v)
              (goto_local-Total e (countdown-IsFinite main_countdown) v.gpib_addr)
              (goto_local-Keeps same e is_timedout (countdown-Keeps same main_countdown)
                v.gpib_addr)
              refl q)
            λ t u r. r)
        w p

  pub local-Stays : Stays (serve_local e)
  unfolding serve_local timeout_start gpib_ren
  local-Stays w p =
      Stays-when (w.tmc.last_complete && w.tmc.in_complete) _
        (λ v q.
          Stays-when (not (e.out_received v.now)) _
            (λ x r.
              Returns-bind (λ _ u. IsPlain u) (λ _ u. IsPlain u) _ _ (to_local-Stays x r)
                λ _ u s. Stays-when (not (u.tmc.handle_ren_control == 0)) _ (λ y z. z) u s)
            _ q)
        w p
