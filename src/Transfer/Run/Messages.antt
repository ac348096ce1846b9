-- ===== src/Transfer/Run/Messages.antt =====
-- A call of `ProcessSentMessage` or of `GetNextMessage` keeps the state valid.
use usb_gpib.Base.{ℕ, Bool, true, false, not, ◌≡◌, refl, ◌∙◌, ap, ◌&&◌, ◌+◌, ◌==◌, if◌then◌else◌}
use usb_gpib.State.{World, Env, Tmc, Serial}
use usb_gpib.Exec.{pure, ◌>>◌}
use usb_gpib.Endpoint.{endpoint_read, on_tmc}
use usb_gpib.Gpib.Handshake.Apart.{Apart}
use usb_gpib.Parser.Message.{process_internal_command}
use usb_gpib.Control.{tmc_timedout}
use usb_gpib.Transfer.{send_to_device, after_message, process_sent_message, get_next_message}
use usb_gpib.Transfer.Apart.{device-Keeps, after-Keeps, part-Keeps}
use usb_gpib.Transfer.Run.Guards.{Partly, Partly-bind, Partly-Ensures}
use usb_gpib.Transfer.Run.Settled.{
  counted, IsSettled, IsSettled-Apart, status-Keeps, timedout-Keeps,
}
use usb_gpib.Transfer.Run.Commands.{IsNoSetting, Commanded, command-Obeys}

module _ (cell value : ℕ) (text : Serial) (other : IsNoSetting cell) (e : Env) where
  -- Valid, with the counters of these flags.
  abbrev pub Counted : Tmc → World → Type 0
  Counted t u =
      IsSettled cell value text u
      × (u.tmc.remaining ≡ t.remaining)
      × (u.tmc.last_complete ≡ t.last_complete)
      × (u.tmc.write_busy ≡ t.write_busy)

  pub Counted-Apart : (t : Tmc) (w u : World) → Counted t w → Apart counted w u → Counted t u
  Counted-Apart t w u h a =
      (IsSettled-Apart cell value text w u h.0 a, a.0.0 ∙ h.1, a.0.1 ∙ h.2, a.0.2 ∙ h.3)

  -- A change of the flags alone.
  pub flagged :
      (w : World) (t : Tmc)
      → t.request_in_progress ≡ w.tmc.request_in_progress
      → IsSettled cell value text w
      → IsSettled cell value text (record w { tmc = t })
  flagged w t same h = record {
    split = rw same h.split;
    response = h.response;
    address = h.address;
    eoi = h.eoi;
    rom = h.rom;
    serial = h.serial;
  }

  -- The flags after a part of a message.
  abbrev after_part : Bool → Tmc → Tmc
  after_part last t = record t { parameter_set = false; write_busy = not last }

  ended :
      (t : Tmc) (last timedout : Bool) (u : World)
      → Counted t u
      → Partly
          (λ _ x. Counted (after_part last t) x)
          (after_message e last timedout (tmc_timedout e) (on_tmc (after_part last) u))
  ended t last timedout u h =
      let y = on_tmc (after_part last) u in
      Partly-Ensures (λ _ x. Apart counted y x) (λ _ x. Counted (after_part last t) x)
        (after_message e last timedout (tmc_timedout e) y)
        (after-Keeps counted (λ b b'. tt) e (status-Keeps e) (tmc_timedout e) (timedout-Keeps e)
          last timedout y)
        λ _ x a.
          Counted-Apart (after_part last t) y x
            (flagged u (after_part last u.tmc) refl h.0, h.1, h.2, refl) a

  -- The flags while a part of a message is sent, and the state when its first byte was read.
  abbrev busy_flags : Tmc → Tmc
  busy_flags t = record t { write_busy = true }

  abbrev begun : World → World
  begun w = record (on_tmc busy_flags w) { usb = record (w.usb) { taken = w.usb.taken + 1 } }

  begun-Counted : (w : World) → IsSettled cell value text w → Counted (busy_flags w.tmc) (begun w)
  begun-Counted w h = (
    record {
      split = h.split;
      response = h.response;
      address = h.address;
      eoi = h.eoi;
      rom = h.rom;
      serial = h.serial;
    },
    refl,
    refl,
    refl,
  )

  part_sent :
      (internal : Bool) (len dat : ℕ) (first last eom : Bool) (t : Tmc) (w : World)
      → Counted t w
      → Partly
          (λ _ u. Counted t u)
          ((if internal
              then process_internal_command e len >> pure false
              else send_to_device e len dat first last eom (tmc_timedout e))
            w)
  part_sent false len dat first last eom t w h =
      Partly-Ensures (λ _ u. Apart counted w u) (λ _ u. Counted t u)
        (send_to_device e len dat first last eom (tmc_timedout e) w)
        (device-Keeps counted (λ b b'. tt) e (status-Keeps e) (tmc_timedout e) (timedout-Keeps e)
          len dat first last eom w)
        λ _ u a. Counted-Apart t w u h a
  part_sent true len dat first last eom t w h =
      Partly-bind (λ _ u. Commanded cell value text other w.tmc u) (λ _ u. Counted t u)
        (process_internal_command e len w) _
        (command-Obeys cell value text other e len w.tmc w (h.0, refl))
        λ _ u k. (
          k.0,
          ap (λ t. t.remaining) k.1 ∙ h.1,
          ap (λ t. t.last_complete) k.1 ∙ h.2,
          ap (λ t. t.write_busy) k.1 ∙ h.3,
        )

  -- A part of a message to the device, or an internal command.
  pub message-Counted :
      (len : ℕ) (first last eom : Bool) (w : World)
      → IsSettled cell value text w
      → Partly
          (λ _ u. Counted (after_part last w.tmc) u)
          (process_sent_message e len first last eom (tmc_timedout e) w)
  unfolding process_sent_message endpoint_read
  message-Counted len first last eom w h =
      let dat = e.out_bytes w.usb.taken in
      Partly-bind (λ _ u. Counted (busy_flags w.tmc) u) (λ _ u. Counted (after_part last w.tmc) u) _
        _
        (part_sent (first && w.tmc.parameter_set && dat == b'!') len dat first last eom
          (busy_flags w.tmc) (begun w) (begun-Counted w h))
        λ t u k. ended (busy_flags w.tmc) last t u k

  -- A part of a message from the device.
  pub part-Counted :
      (maxlen : ℕ) (first : Bool) (t : Tmc) (w : World)
      → Counted t w
      → Partly (λ _ u. Counted t u) (get_next_message e maxlen first (tmc_timedout e) w)
  part-Counted maxlen first t w h =
      Partly-Ensures (λ _ u. Apart counted w u) (λ _ u. Counted t u)
        (get_next_message e maxlen first (tmc_timedout e) w)
        (part-Keeps counted (λ b b'. tt) e (status-Keeps e) (tmc_timedout e) (timedout-Keeps e)
          maxlen first w)
        λ _ u a. Counted-Apart t w u h a
