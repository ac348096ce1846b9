-- ===== src/Transfer/Run/Parts.antt =====
-- What keeps the state of the main loop valid, and the parts of messages, which do.
use usb_gpib.Base.{
  ℕ, Bool, true, false, not, ◌≡◌, refl, ◌⊎◌, inl, inr, ◌-◌, ◌≤◌, ◌&&◌, ◌||◌, ◌==◌, min,
  if◌then◌else◌, arith,
}
use usb_gpib.State.{World, Env, Tmc, Serial, Response, Usb, clear_out}
use usb_gpib.Exec.{M, modify, gets, pure, ◌>>=◌, ◌>>◌}
use usb_gpib.Endpoint.{show, select, out_ep, io_size}
use usb_gpib.Gpib.Handshake.Apart.{Apart, Keeps}
use usb_gpib.Control.{tmc_timedout}
use usb_gpib.Transfer.{process_sent_message, get_next_message}
use usb_gpib.Transfer.Header.{Header, header_size}
use usb_gpib.Transfer.Response.{next_response-pending}
use usb_gpib.Transfer.Task.{
  readbuffer_size, next_response, answer_bytes, message_out, within_message,
}
use usb_gpib.Transfer.Run.Guards.{
  Guards, Guards-when, Partly, Partly-bind, Partly-weaken, Partly-Ensures,
}
use usb_gpib.Transfer.Run.Settled.{counted, IsReadable, IsSettled, IsSettled-Apart}
use usb_gpib.Transfer.Run.Commands.{IsNoSetting}
use usb_gpib.Transfer.Run.Messages.{Counted, flagged, message-Counted, part-Counted}

-- The state between two rounds of the main loop: besides what is valid at any time, a message is complete
-- exactly where no byte of it is left, and while bytes are left the write is busy.
pub record IsSound (cell value : ℕ) (text : Serial) (w : World) : Type 0 where
  pub settled : IsSettled cell value text w
  pub complete : w.tmc.last_complete ≡ (w.tmc.remaining == 0)
  pub busy : ((w.tmc.remaining == 0) || w.tmc.write_busy) ≡ true

module _ (cell value : ℕ) (text : Serial) (other : IsNoSetting cell) (e : Env) where
  abbrev pub Sound : World → Type 0
  Sound = IsSound cell value text

  pub sound-Apart : (w u : World) → Sound w → Apart counted w u → Sound u
  sound-Apart w u h a = record {
    settled = IsSettled-Apart cell value text w u h.settled a;
    complete = rw (a.0.0, a.0.1) h.complete;
    busy = rw (a.0.0, a.0.2) h.busy;
  }

  pub Keeps-Guards : {A : Type 0} (m : M A) → Keeps counted m → Guards Sound m
  Keeps-Guards m keeps w h =
      Partly-Ensures (λ _ u. Apart counted w u) (λ _ u. Sound u) (m w) (keeps w)
        λ _ u a. sound-Apart w u h a

  one_of : (b : Bool) → (b || not b) ≡ true
  one_of true = refl
  one_of false = refl

  -- A change on the USB side.
  usb_changed :
      (w : World) (b : Usb)
      → IsSettled cell value text w
      → IsSettled cell value text (record w { usb = b })
  usb_changed w b h =
      IsSettled-Apart cell value text w (record w { usb = b }) h
        ((refl, refl, refl, λ x. x), tt, refl, refl, refl, refl, refl, λ low. low)

  -- The end of a part of a message to the device: what is left, and whether it is complete.
  part_done :
      (left : ℕ) (t : Tmc) (u : World)
      → t.remaining ≡ left
      → t.write_busy ≡ not (left == 0)
      → t.last_complete ≡ (left == 0)
      → Counted cell value text other e t u
      → Sound u
  part_done left t u rem wb lc h = record {
    settled = h.0;
    complete = rw (h.1, h.2, rem) lc;
    busy = rw (h.1, rem, h.3, wb) (one_of (left == 0));
  }

  pub out-Guards : (h : Header) → Guards Sound (message_out e h)
  unfolding message_out
  out-Guards h w s =
      let curlen = min (io_size - header_size) h.transfer_size in
      let left = h.transfer_size - curlen in
      let eom = not (h.last_message == 0) in
      let t : Tmc = record (w.tmc) { remaining = left; eom = eom } in
      let v = record w { tmc = t } in
      Partly-bind
        (λ _ u.
          Counted cell value text other e
            (record t { parameter_set = false; write_busy = not (left == 0) }) u)
        (λ _ u. Sound u)
        (process_sent_message e curlen w.tmc.last_complete (left == 0) (eom && left == 0)
          (tmc_timedout e) v)
        _
        (message-Counted cell value text other e curlen w.tmc.last_complete (left == 0)
          (eom && left == 0) v (flagged cell value text other e w t refl s.settled))
        λ _ u k.
          let x = show clear_out (select out_ep u) in
          let last_flags : Tmc = record (u.tmc) { last_complete = left == 0 } in
          part_done left last_flags (record x { tmc = last_flags }) k.1 k.3 refl
            (
              flagged cell value text other e x last_flags refl (usb_changed u x.usb k.0),
              refl,
              refl,
              refl,
            )

  pub within-Guards : Guards Sound (within_message e)
  unfolding within_message
  within-Guards w s =
      Guards-when Sound (e.out_received w.now) _
        (λ u r.
          let curlen = min u.tmc.remaining io_size in
          let left = u.tmc.remaining - curlen in
          let t : Tmc = record (u.tmc) {
            last_transfer_length = 0;
            remaining = left;
            last_complete = left == 0;
          } in
          let v = record u { tmc = t } in
          Partly-bind
            (λ _ x.
              Counted cell value text other e
                (record t { parameter_set = false; write_busy = not (left == 0) }) x)
            (λ _ x. Sound x)
            (process_sent_message e curlen false (left == 0) (u.tmc.eom && left == 0)
              (tmc_timedout e) v)
            _
            (message-Counted cell value text other e curlen false (left == 0)
              (u.tmc.eom && left == 0) v (flagged cell value text other e u t refl r.settled))
            λ _ x k.
              part_done left (record t { parameter_set = false; write_busy = not (left == 0) })
                (show clear_out x) refl refl refl
                (usb_changed x (show clear_out x).usb k.0, k.1, k.2, k.3))
        _ (sound-Apart w _ s ((refl, refl, refl, λ x. x), tt, refl, refl, refl, refl, refl, λ l. l))

  -- A valid response stays one when a part of it is read.
  readable :
      (size : ℕ) (r : Response)
      → (r.len == 0) ≡ false
      → IsReadable r
      → IsReadable (next_response size r).1
  readable size r some_left h =
      let k =
        next_response-pending size r
          (record { size = h.size; len_lt = h.len_lt; rpos_le = within h.rpos_le }) in
      record { size = k.2.size; len_lt = k.2.len_lt; rpos_le = inr k.2.rpos_le }
    where
      within : (r.len ≡ 0) ⊎ (r.rpos ≤ r.len) → r.rpos ≤ r.len
      within (inl none_left) = ground arith
      within (inr le) = le

  pub answer-Guards : (size : ℕ) → Guards Sound (answer_bytes e size)
  unfolding answer_bytes
  answer-Guards size w s = by_left (w.response.len == 0) refl
    where
      by_left :
          (none_left : Bool)
          → (w.response.len == 0) ≡ none_left
          → Partly
              (λ _ u. Sound u)
              ((if not none_left
                  then (do
                    modify (λ u. record u { response = (next_response size w.response).1 })
                    pure (
                      (next_response size w.response).0,
                      (next_response size w.response).1.len == 0,
                    ))
                  else (do
                    first ← gets (λ u. u.tmc.in_complete)
                    get_next_message e (min readbuffer_size size) first (tmc_timedout e)))
                w)
      by_left false h = record {
        settled = record {
          split = s.settled.split;
          response = readable size w.response h s.settled.response;
          address = s.settled.address;
          eoi = s.settled.eoi;
          rom = s.settled.rom;
          serial = s.settled.serial;
        };
        complete = s.complete;
        busy = s.busy;
      }
      by_left true h =
          Partly-weaken (λ _ u. Counted cell value text other e w.tmc u) (λ _ u. Sound u)
            (get_next_message e (min readbuffer_size size) w.tmc.in_complete (tmc_timedout e) w)
            (part-Counted cell value text other e (min readbuffer_size size) w.tmc.in_complete w.tmc
              w (s.settled, refl, refl, refl))
            λ r u k. record {
              settled = k.0;
              complete = rw (k.1, k.2) s.complete;
              busy = rw (k.1, k.3) s.busy;
            }
