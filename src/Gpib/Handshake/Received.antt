-- ===== src/Gpib/Handshake/Received.antt =====
-- How `gpib_readdat_quick` ends.
use usb_gpib.Base.{
  ℕ, Bool, true, false, not, ◌≡◌, refl, ◌∙◌, ◌≤◌, [], ◌++◌, append-nil, append_assoc, if◌then◌else◌,
  arith,
}
use usb_gpib.State.{World, Env}
use usb_gpib.Exec.{M, pure, bind, when, Ensures, Ensures-bind, Ensures-weaken}
use usb_gpib.Gpib.Lines.{on_lines, set_nrfd, read_pin, gpib_recover}
use usb_gpib.Gpib.Timeouts.{IsWatch}
use usb_gpib.Gpib.Sequence.{recoveries}
use usb_gpib.Gpib.Handshake.{wait, take_byte, gpib_readdat_quick, ends_message}
use usb_gpib.Gpib.Handshake.Quiet.{Watched, wait-Watched}

module _ (e : Env) {f : M Bool} (watch : IsWatch f) where
  open watch use {Expired, frame}

  -- The byte fits, and the timeout is reported exactly when the interface was recovered.
  abbrev pub Read : World → ℕ × Bool × Bool → World → Type 0
  Read w r u =
      (r.0 ≤ 255)
      × (u.gpib.log ≡ w.gpib.log ++ (if r.2 then recoveries 1 else []))
      × (r.2 ≡ true → Expired u)

  -- Before the recovery.
  abbrev Taken : World → ℕ × Bool × Bool → World → Type 0
  Taken w r u = (r.0 ≤ 255) × (u.gpib.log ≡ w.gpib.log) × (r.2 ≡ true → Expired u)

  take_byte-Taken : (quick : Bool) (w : World) → Ensures (Taken w) (take_byte e f quick w)
  unfolding take_byte read_pin
  take_byte-Taken quick w =
      Ensures-bind (Watched e watch _) (Taken w) (wait e (λ s. s.dav) quick f _) _
        (wait-Watched e watch (λ s. s.dav) quick _) λ t u h. (omega arith, h.0.log, h.1)

  Taken-if :
      (t quick : Bool) (w u : World)
      → u.gpib.log ≡ w.gpib.log
      → (t ≡ true → Expired u)
      → Ensures (Taken w) ((if t then pure (0, false, true) else take_byte e f quick) u)
  Taken-if true quick w u same x = (omega arith, same, x)
  Taken-if false quick w u same x =
      Ensures-weaken (Taken u) (Taken w) (take_byte e f quick u) (take_byte-Taken quick u)
        λ r v h. (h.0, h.1 ∙ same, h.2)

  recover-Read :
      (w u : World) (r : ℕ × Bool × Bool)
      → Taken w r u
      → Ensures (Read w) (
          bind
            (when r.2 gpib_recover u)
            (λ _ v. pure (r.0, ends_message u r.0 r.1, r.2) (on_lines (set_nrfd true) v)))
  unfolding gpib_recover
  recover-Read w u (c, eoi, true) h = (h.0, rw (h.1, append_assoc) refl, λ t. frame u _ _ (h.2 t))
  recover-Read w u (c, eoi, false) h = (h.0, rw (h.1, append-nil) refl, λ t. cc)

  -- `gpib_readdat_quick` gives a byte; it shows nothing on the bus, or it reports a timeout and has
  -- recovered the interface.
  pub readdat-Read : (quick : Bool) (w : World) → Ensures (Read w) (gpib_readdat_quick e f quick w)
  unfolding gpib_readdat_quick
  readdat-Read quick w =
      Ensures-bind (Watched e watch _) (Read w) (wait e (λ s. not s.dav) quick f _) _
        (wait-Watched e watch (λ s. not s.dav) quick _)
        λ t u h.
          Ensures-bind (Taken w) (Read w)
            ((if t then pure (0, false, true) else take_byte e f quick) u) _
            (Taken-if t quick w u h.0.log h.1) λ r v h'. recover-Read w v r h'
