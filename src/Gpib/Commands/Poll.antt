-- ===== src/Gpib/Commands/Poll.antt =====
-- What the serial poll of gpib.c, `gpib_readStatusByte`, shows on the bus and gives.
use usb_gpib.Base.{
  ℕ, Bool, true, false, refl, ◌∙◌, List, ◌∷◌, [], ◌++◌, append_assoc, append-nil, ◌≤◌,
  if◌then◌else◌, subst, arith,
}
use usb_gpib.State.{World, Env, BusEvent, command}
use usb_gpib.Exec.{M, bind, pure, unless, Ensures, Ensures-bind, Ensures-weaken}
use usb_gpib.Gpib.Lines.{set_transaction}
use usb_gpib.Gpib.Timeouts.{IsWatch}
use usb_gpib.Gpib.Sequence.{Ends, Shows, start, next, Ends-frame, Ends-Shows, Ends-longer}
use usb_gpib.Gpib.Handshake.{gpib_readdat_quick}
use usb_gpib.Gpib.Handshake.Received.{Read, readdat-Read}
use usb_gpib.Gpib.Commands.{
  recover_if, gpib_readdat, gpib_cmd_spe, gpib_cmd_spd, gpib_cmd_unt, gpib_cmd_lag, gpib_cmd_tag,
  gpib_read_status_byte,
}
use usb_gpib.Gpib.Commands.Address.{address_bytes, tx_command}
use usb_gpib.Gpib.Commands.Roles.{lag, tag, recover-Ends}

-- The commands up to the byte that the device sends, and those after it.
abbrev polling : ℕ → List BusEvent
polling addr = command 0x20 ∷ command 0x18 ∷ address_bytes 0x40 addr

abbrev poll_end : List BusEvent
poll_end = command 0x19 ∷ command 0x5f ∷ []

abbrev pub polled : ℕ → List BusEvent
polled addr = polling addr ++ poll_end

-- A byte is given, and the bus shows the sequence or a beginning of it and a recovery.
abbrev pub Polled : List BusEvent → World → ℕ → World → Type 0
Polled bs w status u = (status ≤ 255) × Shows bs w u

module _ (e : Env) {f : M Bool} (watch : IsWatch f) where
  -- The byte was read after all of `bs`, or the poll was cut.
  abbrev ReadAfter : List BusEvent → World → ℕ × Bool × Bool → World → Type 0
  ReadAfter bs w r u = (r.0 ≤ 255) × Ends watch (if r.2 then bs ++ poll_end else bs) w r.2 u

  byte_taken :
      (bs : List BusEvent) (w u v : World) (r : ℕ × Bool × Bool)
      → Ends watch bs w false u
      → Read e watch u r v
      → ReadAfter bs w r v
  byte_taken bs w u v (c, eoi, false) h k =
      (k.0, record { done = λ _. k.1 ∙ rw (append-nil) (h.done refl); cut = λ d. cc })
  byte_taken bs w u v (c, eoi, true) h k = (
    k.0,
    record {
      done = λ d. cc;
      cut = λ _. (
        record {
          before = bs;
          missing = command 0x19;
          rest = command 0x5f ∷ [];
          times = 0;
          split = refl;
          log_eq = k.1 ∙ rw (h.done refl, append_assoc) refl;
        },
        k.2 refl,
      );
    },
  )

  read_unless :
      (bs : List BusEvent) (w u : World) (t : Bool)
      → Ends watch bs w t u
      → Ensures (ReadAfter bs w) ((if t then pure (0, false, true) else gpib_readdat e f) u)
  unfolding gpib_readdat
  read_unless bs w u true h = (omega arith, Ends-longer watch bs poll_end w u h)
  read_unless bs w u false h =
      Ensures-weaken (Read e watch u) (ReadAfter bs w) (gpib_readdat_quick e f true u)
        (readdat-Read e watch true u) λ r v k. byte_taken bs w u v r h k

  poll_close :
      (bs : List BusEvent) (w u : World) (status : ℕ) (t : Bool)
      → status ≤ 255
      → Ends watch bs w t u
      → Ensures
          (Polled bs w)
          (bind (recover_if t u) (λ t' v. pure status (set_transaction false v)))
  poll_close bs w u status t byte h =
      Ensures-bind (Ends watch bs w) (Polled bs w) (recover_if t u) _
        (recover-Ends e watch bs w u t h)
        λ t' v k. (byte, Ends-Shows watch bs w _ t' (Ends-frame watch bs w v t' _ refl k))

  -- SPD, UNT and the end of the function.
  poll_rest :
      (bs : List BusEvent) (w u : World) (r : ℕ × Bool × Bool)
      → ReadAfter bs w r u
      → Ensures (Polled (bs ++ poll_end) w) (
          bind (unless r.2 (gpib_cmd_spd e f) u) (λ t5 u5.
            bind
              (unless t5 (gpib_cmd_unt e f) u5)
              (λ t6 u6. bind (recover_if t6 u6) (λ t7 v. pure r.0 (set_transaction false v)))))
  unfolding gpib_cmd_spd gpib_cmd_unt
  poll_rest bs w u (c, eoi, true) h = poll_close (bs ++ poll_end) w u c true h.0 h.1
  poll_rest bs w u (c, eoi, false) h =
      let Q = Polled (bs ++ poll_end) w in
      next watch Q bs (command 0x19 ∷ []) w false u (gpib_cmd_spd e f) _ h.1
        (tx_command e watch 0x19)
        λ t5 u5 h5.
          next watch Q _ (command 0x5f ∷ []) w t5 u5 (gpib_cmd_unt e f) _ h5
            (tx_command e watch 0x5f)
            λ t6 u6 h6.
              poll_close _ w u6 c t6 h.0
                (subst (λ cs. Ends watch cs w t6 u6) (append_assoc bs _ _) h6)

  -- The serial poll sends the controller's listen address, SPE, the talk address of the device, SPD and
  -- UNT, or is cut short and recovers; either way it gives one byte.
  pub read_status_byte-Polled :
      (addr : ℕ) (w : World) → Ensures (Polled (polled addr) w) (gpib_read_status_byte e addr f w)
  unfolding gpib_read_status_byte gpib_cmd_spe
  read_status_byte-Polled addr w =
      let Q = Polled (polled addr) w in
      next watch Q [] (command 0x20 ∷ []) w false _ (gpib_cmd_lag e 0 f) _ (start watch w _ refl)
        (lag e watch 0)
        λ t1 u1 h1.
          next watch Q _ (command 0x18 ∷ []) w t1 u1 (gpib_cmd_spe e f) _ h1
            (tx_command e watch 0x18)
            λ t2 u2 h2.
              next watch Q _ (address_bytes 0x40 addr) w t2 u2 (gpib_cmd_tag e addr f) _ h2
                (tag e watch addr)
                λ t3 u3 h3.
                  Ensures-bind (ReadAfter (polling addr) w) Q
                    ((if t3 then pure (0, false, true) else gpib_readdat e f) u3) _
                    (read_unless (polling addr) w u3 t3 h3)
                    λ r u4 h4. poll_rest (polling addr) w u4 r h4
