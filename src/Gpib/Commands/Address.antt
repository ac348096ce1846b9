-- ===== src/Gpib/Commands/Address.antt =====
-- The bytes that address a device, and the two commands that send them.
use usb_gpib.Base.{
  ℕ, Bool, true, false, refl, List, [], ◌∷◌, ◌-◌, ◌/◌, ◌==◌, if◌then◌else◌, bit_and, bit_or,
  Bool-cases, inl, inr,
}
use usb_gpib.State.{World, Env, BusEvent, command}
use usb_gpib.Exec.{M, Ensures, Ensures-bind, Ensures-weaken}
use usb_gpib.Gpib.Timeouts.{IsWatch}
use usb_gpib.Gpib.Sequence.{Ends, Ends-append, Ends-again}
use usb_gpib.Gpib.Handshake.Sent.{tx-Ends}
use usb_gpib.Gpib.Handshake.Expired.{Recovered, tx_expired}
use usb_gpib.Gpib.Commands.{gpib_tx, gpib_cmd_address}

-- The secondary address, where the byte names one.
abbrev pub secondary_bytes : ℕ → List BusEvent
secondary_bytes addr =
    if bit_and addr 0xe0 == 0 then [] else command (bit_or 0x60 (addr / 32 - 1)) ∷ []

abbrev pub address_bytes : ℕ → ℕ → List BusEvent
address_bytes group addr = command (bit_or (bit_and addr 0x1f) group) ∷ secondary_bytes addr

module _ (e : Env) {f : M Bool} (watch : IsWatch f) where
  open watch use {Expired}

  pub tx_command :
      (dat : ℕ) (w : World) → Ensures (Ends watch (command dat ∷ []) w) (gpib_tx e dat true f w)
  unfolding gpib_tx
  tx_command dat w = tx-Ends e watch dat true true w

  second :
      (b : BusEvent) (dat : ℕ) (w u : World) (t : Bool)
      → Ends watch (b ∷ []) w t u
      → Ensures (Ends watch (b ∷ (command dat ∷ [])) w) (gpib_tx e dat true f u)
  unfolding gpib_tx
  second b dat w u true h =
      Ensures-weaken (Recovered e watch u) (Ends watch (b ∷ (command dat ∷ [])) w) _
        (tx_expired e watch dat true u (h.cut refl).1)
        λ t v r. Ends-again watch (b ∷ []) (command dat ∷ []) w u v t h r.0 r.1 r.2
  second b dat w u false h =
      Ensures-weaken (Ends watch (command dat ∷ []) u) (Ends watch (b ∷ (command dat ∷ [])) w) _
        (tx_command dat u)
        λ t v k. Ends-append watch (b ∷ []) (command dat ∷ []) w u v t (h.done refl) k

  -- `gpib_cmd_LAG` and `gpib_cmd_TAG`
  pub address-Ends :
      (group addr : ℕ) (w : World)
      → Ensures (Ends watch (address_bytes group addr) w) (gpib_cmd_address e group addr f w)
  unfolding gpib_cmd_address
  address-Ends group addr w =
      let b = command (bit_or (bit_and addr 0x1f) group) in
      Ensures-bind (Ends watch (b ∷ []) w) (Ends watch (address_bytes group addr) w)
        (gpib_tx e _ true f w) _ (tx_command _ w)
        λ t u h. elim (Bool-cases (bit_and addr 0xe0 == 0)) [
          | inl primary ↦ rw primary h
          | inr secondary ↦ rw secondary (second b _ w u t h)
        ]
