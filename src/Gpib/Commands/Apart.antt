-- ===== src/Gpib/Commands/Apart.antt =====
-- The addressing sequences of gpib.c leave the USB side, the parser and the settings alone.
use usb_gpib.Base.{ℕ, Bool, true, false, ◌==◌, bit_and, bit_or, if◌then◌else◌}
use usb_gpib.State.{Env}
use usb_gpib.Exec.{M, pure, when, unless, ◌>>=◌}
use usb_gpib.Gpib.Lines.{gpib_recover}
use usb_gpib.Gpib.Handshake.Apart.{
  Side, Keeps, Keeps-bind, Keeps-pure, Keeps-unless, Keeps-when, Keeps-if, Keeps-recover,
  Apart-refl, tx-Keeps, readdat-Keeps,
}
use usb_gpib.Gpib.Commands.{
  recover_if, gpib_tx, gpib_cmd_address, gpib_cmd_lag, gpib_cmd_tag, gpib_cmd_unl, gpib_cmd_unt,
  gpib_cmd_sdc, gpib_sdc, gpib_cmd_spe, gpib_cmd_spd, gpib_readdat, gpib_read_status_byte,
  gpib_untalk_unlisten, gpib_make_listener, gpib_make_talker, gpib_local_lockout, gpib_goto_local,
  gpib_trigger, gpib_cmd_llo, gpib_cmd_gtl, gpib_cmd_get,
}

module _ (s : Side) where
  pub recover_if-Keeps : (t : Bool) → Keeps s (recover_if t)
  unfolding recover_if
  recover_if-Keeps t =
      Keeps-bind s (when t gpib_recover) _ (Keeps-when s t gpib_recover (Keeps-recover s))
        λ _. Keeps-pure s t

  -- `if (!timedout) timedout = m;`, and what follows it.
  next :
      {B : Type 0} (t : Bool) (m : M Bool) (k : Bool → M B)
      → Keeps s m
      → ((t' : Bool) → Keeps s (k t'))
      → Keeps s (unless t m >>= k)
  next t m k h = Keeps-bind s (unless t m) k (Keeps-unless s t m h)

  module _ (e : Env) (f : M Bool) (f-Keeps : Keeps s f) where
    pub command-Keeps : (dat : ℕ) → Keeps s (gpib_tx e dat true f)
    unfolding gpib_tx
    command-Keeps dat = tx-Keeps s e f f-Keeps dat true true

    pub address-Keeps : (group addr : ℕ) → Keeps s (gpib_cmd_address e group addr f)
    unfolding gpib_cmd_address
    address-Keeps group addr =
        Keeps-bind s (gpib_tx e (bit_or (bit_and addr 0x1f) group) true f) _ (command-Keeps _)
          λ t. Keeps-if s (bit_and addr 0xe0 == 0) (pure t) _ (Keeps-pure s t) (command-Keeps _)

    pub make_listener-Keeps : (addr : ℕ) → Keeps s (gpib_make_listener e addr f)
    unfolding gpib_make_listener gpib_cmd_unt gpib_cmd_unl gpib_cmd_lag gpib_cmd_tag
    make_listener-Keeps addr w =
        next false (gpib_cmd_unt e f) _ (command-Keeps 0x5f)
          (λ t1. next t1 (gpib_cmd_tag e 0 f) _ (address-Keeps 0x40 0) λ t2.
            next t2 (gpib_cmd_unl e f) _ (command-Keeps 0x3f)
              λ t3. next t3 (gpib_cmd_lag e addr f) _ (address-Keeps 0x20 addr) recover_if-Keeps)
          _

    pub make_talker-Keeps : (addr : ℕ) → Keeps s (gpib_make_talker e addr f)
    unfolding gpib_make_talker gpib_cmd_unl gpib_cmd_lag gpib_cmd_tag
    make_talker-Keeps addr w =
        next false (gpib_cmd_unl e f) _ (command-Keeps 0x3f)
          (λ t1. next t1 (gpib_cmd_lag e 0 f) _ (address-Keeps 0x20 0) λ t2.
            next t2 (gpib_cmd_tag e addr f) _ (address-Keeps 0x40 addr)
              λ t3 u. recover_if-Keeps t3 _)
          _

    pub untalk_unlisten-Keeps : Keeps s (gpib_untalk_unlisten e f)
    unfolding gpib_untalk_unlisten gpib_cmd_unt gpib_cmd_unl
    untalk_unlisten-Keeps w =
        next false (gpib_cmd_unl e f) _ (command-Keeps 0x3f)
          (λ t1.
            next t1 (gpib_cmd_unt e f) _ (command-Keeps 0x5f)
              λ t2. Keeps-bind s (recover_if t2) _ (recover_if-Keeps t2) λ t v. Apart-refl s v)
          _

    pub read_status_byte-Keeps : (addr : ℕ) → Keeps s (gpib_read_status_byte e addr f)
    unfolding gpib_read_status_byte gpib_cmd_lag gpib_cmd_spe gpib_cmd_tag gpib_readdat gpib_cmd_spd
        gpib_cmd_unt
    read_status_byte-Keeps addr w =
        next false (gpib_cmd_lag e 0 f) _ (address-Keeps 0x20 0)
          (λ t1. next t1 (gpib_cmd_spe e f) _ (command-Keeps 0x18) λ t2.
            next t2 (gpib_cmd_tag e addr f) _ (address-Keeps 0x40 addr) λ t3.
              Keeps-bind s (if t3 then pure (0, false, true) else gpib_readdat e f) _
                (Keeps-if s t3 (pure (0, false, true)) (gpib_readdat e f) (λ v. Apart-refl s v)
                  (readdat-Keeps s e f f-Keeps true))
                λ r. next r.2 (gpib_cmd_spd e f) _ (command-Keeps 0x19) λ t5.
                  next t5 (gpib_cmd_unt e f) _ (command-Keeps 0x5f) λ t6.
                    Keeps-bind s (recover_if t6) _ (recover_if-Keeps t6) λ t7 v. Apart-refl s v)
          _

    pub sdc-Keeps : (addr : ℕ) → Keeps s (gpib_sdc e addr f)
    unfolding gpib_sdc gpib_cmd_lag gpib_cmd_sdc gpib_cmd_unl
    sdc-Keeps addr w =
        next false (gpib_cmd_lag e addr f) _ (address-Keeps 0x20 addr)
          (λ t1. next t1 (gpib_cmd_sdc e f) _ (command-Keeps 0x04) λ t2.
            next t2 (gpib_cmd_unl e f) _ (command-Keeps 0x3f)
              λ t3. Keeps-bind s (recover_if t3) _ (recover_if-Keeps t3) λ t v. Apart-refl s v)
          _

    pub local_lockout-Keeps : Keeps s (gpib_local_lockout e f)
    unfolding gpib_local_lockout gpib_cmd_llo
    local_lockout-Keeps w =
        Keeps-bind s (gpib_cmd_llo e f) _ (command-Keeps 0x11) recover_if-Keeps w

    -- The listen address of the device, a command and UNL.
    addressed-Keeps :
        (addr dat : ℕ)
        → Keeps s (do
          t1 ← gpib_cmd_lag e addr f
          t2 ← unless t1 (gpib_tx e dat true f)
          t3 ← unless t2 (gpib_cmd_unl e f)
          recover_if t3)
    unfolding gpib_cmd_lag gpib_cmd_unl
    addressed-Keeps addr dat = next false (gpib_cmd_lag e addr f) _ (address-Keeps 0x20 addr) λ t1.
        next t1 (gpib_tx e dat true f) _ (command-Keeps dat)
          λ t2. next t2 (gpib_cmd_unl e f) _ (command-Keeps 0x3f) recover_if-Keeps

    pub goto_local-Keeps : (addr : ℕ) → Keeps s (gpib_goto_local e addr f)
    unfolding gpib_goto_local gpib_cmd_gtl
    goto_local-Keeps addr w = addressed-Keeps addr 0x01 w

    pub trigger-Keeps : (addr : ℕ) → Keeps s (gpib_trigger e addr f)
    unfolding gpib_trigger gpib_cmd_get
    trigger-Keeps addr w = addressed-Keeps addr 0x08 w
