-- ===== src/Gpib/Commands/Agree.antt =====
-- Two timeout functions that agree while a write is busy serve the addressing sequences alike.
use usb_gpib.Base.{ℕ, Bool, true, false, ◌==◌, bit_and, bit_or}
use usb_gpib.State.{Env}
use usb_gpib.Exec.{M, pure, unless, ◌>>=◌}
use usb_gpib.Gpib.Handshake.Apart.{Keeps, Keeps-unless}
use usb_gpib.Gpib.Handshake.Agree.{
  busy, Agrees, Agrees-bind, Agrees-refl, Agrees-unless, Agrees-if, tx-Agrees,
}
use usb_gpib.Gpib.Commands.{
  recover_if, gpib_tx, gpib_cmd_address, gpib_cmd_lag, gpib_cmd_tag, gpib_cmd_unl, gpib_cmd_unt,
  gpib_untalk_unlisten, gpib_make_listener,
}
use usb_gpib.Gpib.Commands.Apart.{command-Keeps, address-Keeps}

module _ (e : Env) (f g : M Bool) (agree : Agrees f g) (keeps : Keeps busy g) where
  command-Agrees : (dat : ℕ) → Agrees (gpib_tx e dat true f) (gpib_tx e dat true g)
  unfolding gpib_tx
  command-Agrees dat = tx-Agrees e f g agree keeps dat true true

  address-Agrees :
      (group addr : ℕ) → Agrees (gpib_cmd_address e group addr f) (gpib_cmd_address e group addr g)
  unfolding gpib_cmd_address
  address-Agrees group addr =
      Agrees-bind (gpib_tx e (bit_or (bit_and addr 0x1f) group) true f)
        (gpib_tx e (bit_or (bit_and addr 0x1f) group) true g) _ _ (command-Agrees _)
        (command-Keeps busy e g keeps _)
        λ t.
          Agrees-if (bit_and addr 0xe0 == 0) (pure t) (pure t) _ _ (Agrees-refl (pure t))
            (command-Agrees _)

  -- `if (!timedout) timedout = m;`, and what follows it.
  next :
      {B : Type 0} (t : Bool) (m m' : M Bool) (k k' : Bool → M B)
      → Agrees m m'
      → Keeps busy m'
      → ((t' : Bool) → Agrees (k t') (k' t'))
      → Agrees (unless t m >>= k) (unless t m' >>= k')
  next t m m' k k' h kept =
      Agrees-bind (unless t m) (unless t m') k k' (Agrees-unless t m m' h)
        (Keeps-unless busy t m' kept)

  pub make_listener-Agrees :
      (addr : ℕ) → Agrees (gpib_make_listener e addr f) (gpib_make_listener e addr g)
  unfolding gpib_make_listener gpib_cmd_unt gpib_cmd_unl gpib_cmd_lag gpib_cmd_tag
  make_listener-Agrees addr w b =
      let sent = command-Keeps busy e g keeps in
      let to = address-Keeps busy e g keeps in
      next false (gpib_cmd_unt e f) (gpib_cmd_unt e g) _ _ (command-Agrees 0x5f) (sent 0x5f)
        (λ t1.
          next t1 (gpib_cmd_tag e 0 f) (gpib_cmd_tag e 0 g) _ _ (address-Agrees 0x40 0) (to 0x40 0)
            λ t2.
              next t2 (gpib_cmd_unl e f) (gpib_cmd_unl e g) _ _ (command-Agrees 0x3f) (sent 0x3f)
                λ t3.
                  next t3 (gpib_cmd_lag e addr f) (gpib_cmd_lag e addr g) _ _
                    (address-Agrees 0x20 addr) (to 0x20 addr) λ t4. Agrees-refl (recover_if t4))
        _ b

  pub untalk_unlisten-Agrees : Agrees (gpib_untalk_unlisten e f) (gpib_untalk_unlisten e g)
  unfolding gpib_untalk_unlisten gpib_cmd_unt gpib_cmd_unl
  untalk_unlisten-Agrees w b =
      let sent = command-Keeps busy e g keeps in
      next false (gpib_cmd_unl e f) (gpib_cmd_unl e g) _ _ (command-Agrees 0x3f) (sent 0x3f)
        (λ t1.
          next t1 (gpib_cmd_unt e f) (gpib_cmd_unt e g) _ _ (command-Agrees 0x5f) (sent 0x5f)
            λ t2. Agrees-refl _)
        _ b
