-- ===== src/Gpib/Commands/Total.antt =====
-- With a finite timeout function, the addressing sequences of gpib.c return, whatever the devices do.
use usb_gpib.Base.{
  refl, inl, ◌≤◌, ◌<◌, ℕ, Bool, true, false, ◌==◌, bit_and, bit_or, if◌then◌else◌, arith,
}
use usb_gpib.State.{World, Env}
use usb_gpib.Exec.{Returns, M, pure, modify, when, unless, ◌>>=◌, ◌>>◌}
use usb_gpib.Gpib.Lines.{gpib_recover, on_lines, set_ndac, set_transaction}
use usb_gpib.Gpib.Timeouts.{IsCountdown, IsFinite, countdown-IsFinite}
use usb_gpib.Gpib.Handshake.Total.{
  Total, Total-bind, Total-pure, Total-unless, Total-when, Total-if, Total-recover, Total-bus,
  Total-lines, Total-map, tx-Total, readdat-Total,
}
use usb_gpib.Gpib.Commands.{
  recover_if, gpib_tx, gpib_cmd_address, gpib_cmd_lag, gpib_cmd_tag, gpib_cmd_unl, gpib_cmd_unt,
  gpib_cmd_sdc, gpib_sdc, gpib_cmd_spe, gpib_cmd_spd, gpib_readdat, gpib_read_status_byte,
  gpib_make_talker, gpib_make_listener, gpib_untalk_unlisten, gpib_local_lockout, gpib_goto_local,
  gpib_trigger, gpib_cmd_llo, gpib_cmd_gtl, gpib_cmd_get,
}

module _ (e : Env) {f : M Bool} (c : IsFinite f) where
  abbrev pub Halts : {A : Type 0} → M A → Type 0
  Halts = Total e c

  pub command-Total : (dat : ℕ) → Halts (gpib_tx e dat true f)
  unfolding gpib_tx
  command-Total dat = tx-Total e c dat true true (inl refl)

  recover_if-Total : (t : Bool) → Halts (recover_if t)
  unfolding recover_if
  recover_if-Total t =
      Total-bind e c (when t gpib_recover) _ (Total-when e c t gpib_recover (Total-recover e c))
        λ _. Total-pure e c t

  pub address-Total : (group addr : ℕ) → Halts (gpib_cmd_address e group addr f)
  unfolding gpib_cmd_address
  address-Total group addr =
      Total-bind e c (gpib_tx e (bit_or (bit_and addr 0x1f) group) true f) _ (command-Total _)
        λ t. Total-if e c (bit_and addr 0xe0 == 0) (pure t) _ (Total-pure e c t) (command-Total _)

  -- `if (!timedout) timedout = m;`, and what follows it.
  next :
      {B : Type 0} (t : Bool) (m : M Bool) (k : Bool → M B)
      → Halts m
      → ((t' : Bool) → Halts (k t'))
      → Halts (unless t m >>= k)
  next t m k h = Total-bind e c (unless t m) k (Total-unless e c t m h)

  transaction-Total : (b : Bool) → Halts (modify (set_transaction b))
  transaction-Total b = Total-bus e c λ w. record (w.gpib) { transaction_active = b }

  -- A transaction begins.
  begin : {A : Type 0} (m : M A) → Halts m → Halts (modify (set_transaction true) >> m)
  begin m h = Total-bind e c (modify (set_transaction true)) _ (transaction-Total true) λ _. h

  -- It ends, after a recovery if there was a timeout.
  close :
      {A : Type 0} (t : Bool) (g : Bool → A)
      → Halts (do t' ← recover_if t; modify (set_transaction false); pure (g t'))
  close t g =
      Total-bind e c (recover_if t) _ (recover_if-Total t)
        λ t'. Total-map e c (modify (set_transaction false)) (λ _. g t') (transaction-Total false)

  pub make_listener-Total : (addr : ℕ) → Halts (gpib_make_listener e addr f)
  unfolding gpib_make_listener gpib_cmd_unt gpib_cmd_unl gpib_cmd_lag gpib_cmd_tag
  make_listener-Total addr w =
      begin _
        (next false (gpib_cmd_unt e f) _ (command-Total 0x5f) λ t1.
          next t1 (gpib_cmd_tag e 0 f) _ (address-Total 0x40 0) λ t2.
            next t2 (gpib_cmd_unl e f) _ (command-Total 0x3f)
              λ t3. next t3 (gpib_cmd_lag e addr f) _ (address-Total 0x20 addr) recover_if-Total)
        w

  pub make_talker-Total : (addr : ℕ) → Halts (gpib_make_talker e addr f)
  unfolding gpib_make_talker gpib_cmd_unl gpib_cmd_lag gpib_cmd_tag
  make_talker-Total addr w =
      begin _
        (next false (gpib_cmd_unl e f) _ (command-Total 0x3f) λ t1.
          next t1 (gpib_cmd_lag e 0 f) _ (address-Total 0x20 0) λ t2.
            next t2 (gpib_cmd_tag e addr f) _ (address-Total 0x40 addr) λ t3.
              Total-bind e c (modify (on_lines (set_ndac true))) _ (Total-lines e c (set_ndac true))
                λ _. recover_if-Total t3)
        w

  pub untalk_unlisten-Total : Halts (gpib_untalk_unlisten e f)
  unfolding gpib_untalk_unlisten gpib_cmd_unt gpib_cmd_unl
  untalk_unlisten-Total w =
      next false (gpib_cmd_unl e f) _ (command-Total 0x3f)
        (λ t1. next t1 (gpib_cmd_unt e f) _ (command-Total 0x5f) λ t2. close t2 λ t. t) w

  pub read_status_byte-Total : (addr : ℕ) → Halts (gpib_read_status_byte e addr f)
  unfolding gpib_read_status_byte gpib_cmd_lag gpib_cmd_spe gpib_cmd_tag gpib_readdat gpib_cmd_spd
      gpib_cmd_unt
  read_status_byte-Total addr w =
      begin _
        (next false (gpib_cmd_lag e 0 f) _ (address-Total 0x20 0) λ t1.
          next t1 (gpib_cmd_spe e f) _ (command-Total 0x18) λ t2.
            next t2 (gpib_cmd_tag e addr f) _ (address-Total 0x40 addr) λ t3.
              Total-bind e c (if t3 then pure (0, false, true) else gpib_readdat e f) _
                (Total-if e c t3 (pure (0, false, true)) (gpib_readdat e f) (λ v x. omega arith)
                  (readdat-Total e c true (inl refl)))
                λ r.
                  next r.2 (gpib_cmd_spd e f) _ (command-Total 0x19)
                    λ t5. next t5 (gpib_cmd_unt e f) _ (command-Total 0x5f) λ t6. close t6 λ _. r.0)
        w

  pub sdc-Total : (addr : ℕ) → Halts (gpib_sdc e addr f)
  unfolding gpib_sdc gpib_cmd_lag gpib_cmd_sdc gpib_cmd_unl
  sdc-Total addr w =
      begin _
        (next false (gpib_cmd_lag e addr f) _ (address-Total 0x20 addr) λ t1.
          next t1 (gpib_cmd_sdc e f) _ (command-Total 0x04)
            λ t2. next t2 (gpib_cmd_unl e f) _ (command-Total 0x3f) λ t3. close t3 λ t. t)
        w

  pub local_lockout-Total : Halts (gpib_local_lockout e f)
  unfolding gpib_local_lockout gpib_cmd_llo
  local_lockout-Total w =
      Total-bind e c (gpib_cmd_llo e f) _ (command-Total 0x11) recover_if-Total w

  -- The listen address of the device, a command and UNL.
  addressed-Total :
      (addr dat : ℕ)
      → Halts (do
        t1 ← gpib_cmd_lag e addr f
        t2 ← unless t1 (gpib_tx e dat true f)
        t3 ← unless t2 (gpib_cmd_unl e f)
        recover_if t3)
  unfolding gpib_cmd_lag gpib_cmd_unl
  addressed-Total addr dat = next false (gpib_cmd_lag e addr f) _ (address-Total 0x20 addr) λ t1.
      next t1 (gpib_tx e dat true f) _ (command-Total dat)
        λ t2. next t2 (gpib_cmd_unl e f) _ (command-Total 0x3f) recover_if-Total

  pub goto_local-Total : (addr : ℕ) → Halts (gpib_goto_local e addr f)
  unfolding gpib_goto_local gpib_cmd_gtl
  goto_local-Total addr w = addressed-Total addr 0x01 w

  pub trigger-Total : (addr : ℕ) → Halts (gpib_trigger e addr f)
  unfolding gpib_trigger gpib_cmd_get
  trigger-Total addr w = addressed-Total addr 0x08 w

module _ (e : Env) {f : M Bool} (c : IsCountdown f) where
  -- With a countdown that is shorter than the waits are followed, the addressing of a listener or of a
  -- talker and the serial poll return, whatever the pins do, and they leave no more time than before.
  pub addressing-Returns :
      (addr : ℕ) (w : World)
      → c.budget w.timeouts < e.polls
      → Returns (λ t u. c.budget u.timeouts ≤ c.budget w.timeouts) (gpib_make_listener e addr f w)
        × Returns (λ t u. c.budget u.timeouts ≤ c.budget w.timeouts) (gpib_make_talker e addr f w)
        × Returns
            (λ s u. c.budget u.timeouts ≤ c.budget w.timeouts)
            (gpib_read_status_byte e addr f w)
  addressing-Returns addr w h = (
    make_listener-Total e (countdown-IsFinite c) addr w (omega (arith, h)),
    make_talker-Total e (countdown-IsFinite c) addr w (omega (arith, h)),
    read_status_byte-Total e (countdown-IsFinite c) addr w (omega (arith, h)),
  )
