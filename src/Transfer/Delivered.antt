-- ===== src/Transfer/Delivered.antt =====
-- What `ProcessSentMessage` puts on the bus.
use usb_gpib.Base.{
  ℕ, Bool, true, false, not, ◌≡◌, refl, ◌∙◌, ap, List, [], ◌∷◌, ◌++◌, append-nil, ◌&&◌, ◌+◌, ◌==◌,
  if◌then◌else◌,
}
use usb_gpib.State.{World, Env, BusEvent, command, remote}
use usb_gpib.Exec.{
  M, pure, skip, bind, when, ◌>>◌, Ensures, Ensures-bind, Ensures-and, Ensures-weaken,
}
use usb_gpib.Endpoint.{on_tmc, endpoint_read}
use usb_gpib.Gpib.Lines.{on_lines, set_led, observe, gpib_ren}
use usb_gpib.Gpib.Timeouts.{IsWatch}
use usb_gpib.Gpib.Sequence.{Ends, Ends-append, Ends-longer, Ends-Shows, Shows, Shows-same}
use usb_gpib.Gpib.Commands.{gpib_make_listener, gpib_untalk_unlisten}
use usb_gpib.Gpib.Commands.Address.{address_bytes}
use usb_gpib.Gpib.Commands.Roles.{make_listener-Ends, untalk_unlisten-Ends}
use usb_gpib.Gpib.Commands.Apart.{make_listener-Keeps, untalk_unlisten-Keeps}
use usb_gpib.Gpib.Handshake.Apart.{steady, Apart, Apart-refl, Keeps}
use usb_gpib.Transfer.{write_loop, send_to_device, after_message, process_sent_message}
use usb_gpib.Transfer.Sent.{sent, none_pending, Loops, IsReady, loop_sent}

-- REN, and the addressing of the device in the first transfer of a message.
abbrev pub opening : Bool → ℕ → List BusEvent
opening first addr =
    remote true
    ∷ (if first then command 0x5f ∷ command 0x40 ∷ command 0x3f ∷ address_bytes 0x20 addr else [])

-- UNL and UNT after the last transfer.
abbrev pub closing : Bool → List BusEvent
closing last = if last then command 0x3f ∷ command 0x5f ∷ [] else []

-- The test fails.
pub skip_if :
    {A B : Type 0} (Q : B → World → Type 0) (p : Bool) (m n : M A) (k : A → M B) (u : World)
    → p ≡ false
    → Ensures Q (bind (n u) k)
    → Ensures Q (bind ((if p then m else n) u) k)
skip_if Q true m n k u low h = cc
skip_if Q false m n k u low h = h

module _ (e : Env) {f : M Bool} (watch : IsWatch f) (keeps : Keeps steady f) where
  -- The state after REN and the lamp.
  abbrev begun : World → World
  begun w =
      on_lines (set_led false) (observe (remote true) (on_lines (λ l. record l { ren = true }) w))

  opened :
      (first : Bool) (addr : ℕ) (w v : World)
      → v.gpib.log ≡ w.gpib.log ++ (remote true ∷ [])
      → Ensures
          (λ t u. Ends watch (opening first addr) w t u × Apart steady v u)
          ((if first then gpib_make_listener e addr f else pure false) v)
  opened true addr w v log =
      let bs = command 0x5f ∷ command 0x40 ∷ command 0x3f ∷ address_bytes 0x20 addr in
      Ensures-weaken (λ t u. Ends watch bs v t u × Apart steady v u)
        (λ t u. Ends watch (opening true addr) w t u × Apart steady v u)
        (gpib_make_listener e addr f v)
        (Ensures-and (Ends watch bs v) (λ t u. Apart steady v u) (gpib_make_listener e addr f v)
          (make_listener-Ends e watch addr v) (make_listener-Keeps steady e f keeps addr v))
        λ t u h. (Ends-append watch (remote true ∷ []) bs w v u t log h.0, h.1)
  opened false addr w v log = (record { done = λ d. log; cut = λ d. cc }, Apart-refl steady v)

  -- The end of a transfer.
  closed :
      (bs : List BusEvent) (last t : Bool) (w v : World)
      → Ends watch bs w t v
      → Ensures
          (λ _ u.
            Shows (bs ++ closing last) w u × (u.tmc.handle_read_status ≡ v.tmc.handle_read_status))
          (when (last && not t) (gpib_untalk_unlisten e f >> skip) v)
  closed bs true true w v h = (Ends-Shows watch _ w v true (Ends-longer watch bs _ w v h), refl)
  closed bs false true w v h = (Ends-Shows watch _ w v true (Ends-longer watch bs _ w v h), refl)
  closed bs false false w v h = (Ends-Shows watch _ w v false (rw append-nil h), refl)
  closed bs true false w v h =
      Ensures-bind (λ t u. Ends watch (closing true) v t u × Apart steady v u)
        (λ _ u.
          Shows (bs ++ closing true) w u × (u.tmc.handle_read_status ≡ v.tmc.handle_read_status))
        (gpib_untalk_unlisten e f v) _
        (Ensures-and (Ends watch (closing true) v) (λ t u. Apart steady v u)
          (gpib_untalk_unlisten e f v) (untalk_unlisten-Ends e watch v)
          (untalk_unlisten-Keeps steady e f keeps v))
        λ t u k. (
          Ends-Shows watch _ w u t (Ends-append watch bs (closing true) w v u t (h.done refl) k.0),
          k.1.0,
        )

  -- The message after the opening.
  abbrev whole : ℕ → ℕ → ℕ → Bool → Bool → ℕ → List BusEvent
  whole len dat at first eom addr = opening first addr ++ sent e len dat at eom

  device_sent :
      (len dat at : ℕ) (first last eom : Bool) (w : World)
      → IsReady e watch keeps at w
      → Ensures
          (λ t u.
            Shows (whole len dat at first eom w.gpib_addr ++ closing last) w u
            × (u.tmc.handle_read_status ≡ w.tmc.handle_read_status))
          (send_to_device e len dat first last eom f w)
  unfolding send_to_device gpib_ren
  device_sent len dat at first last eom w r =
      let all = whole len dat at first eom w.gpib_addr in
      Ensures-bind (λ t u. Ends watch (opening first w.gpib_addr) w t u × Apart steady (begun w) u)
        (λ t u.
          Shows (all ++ closing last) w u × (u.tmc.handle_read_status ≡ w.tmc.handle_read_status))
        ((if first then gpib_make_listener e w.gpib_addr f else pure false) (begun w)) _
        (opened first w.gpib_addr w (begun w) refl)
        λ t1 v h.
          none_pending
            (λ t u.
              Shows (all ++ closing last) w u
              × (u.tmc.handle_read_status ≡ w.tmc.handle_read_status))
            (v.tmc.handle_read_status && not t1) t1 _ _ v (rw (h.1.0 ∙ r.not_pending) refl)
            (Ensures-bind (Loops e watch keeps all w v)
              (λ t u.
                Shows (all ++ closing last) w u
                × (u.tmc.handle_read_status ≡ w.tmc.handle_read_status))
              (write_loop e len dat eom t1 f v) _
              (loop_sent e watch keeps len dat at eom t1 (opening first w.gpib_addr) w v
                (record {
                  not_pending = h.1.0 ∙ r.not_pending;
                  eoi_low = h.1.7 r.eoi_low;
                  taken = h.1.1 ∙ r.taken;
                })
                h.0)
              λ t3 u k.
                Ensures-bind
                  (λ _ x.
                    Shows (all ++ closing last) w x
                    × (x.tmc.handle_read_status ≡ u.tmc.handle_read_status))
                  (λ t x.
                    Shows (all ++ closing last) w x
                    × (x.tmc.handle_read_status ≡ w.tmc.handle_read_status))
                  (when (last && not t3) (gpib_untalk_unlisten e f >> skip) u) _
                  (closed all last t3 w u k.0)
                  λ _ x d. (Shows-same _ w w x _ refl refl d.0, d.1 ∙ (k.1 ∙ h.1.0)))

  -- The rest of `ProcessSentMessage`, where no status request waits.
  after_none :
      (last t : Bool) (u : World)
      → u.tmc.handle_read_status ≡ false
      → Ensures (λ _ x. (x.gpib.log ≡ u.gpib.log) × (x.tmc ≡ u.tmc)) (after_message e last t f u)
  unfolding after_message
  after_none last t u none = rw none (refl, refl)

  -- The transfer with any timeout function that leaves the bus alone and lets no status request wait.
  pub process_sent_message-Shows :
      (len : ℕ) (first last eom : Bool) (w : World)
      → w.gpib.lines.eoi ≡ false
      → w.tmc.handle_read_status ≡ false
      → (first && w.tmc.parameter_set && e.out_bytes w.usb.taken == b'!') ≡ false
      → Ensures
          (λ _ u.
            Shows
              (opening first w.gpib_addr
                ++ sent e len (e.out_bytes w.usb.taken) (w.usb.taken + 1) eom
                ++ closing last)
              w
              u
            × (u.tmc.write_busy ≡ not last)
            × (u.tmc.parameter_set ≡ false))
          (process_sent_message e len first last eom f w)
  unfolding process_sent_message endpoint_read
  process_sent_message-Shows len first last eom w low none plain =
      let dat = e.out_bytes w.usb.taken in
      let at = w.usb.taken + 1 in
      let all = whole len dat at first eom w.gpib_addr ++ closing last in
      let v = record (on_tmc (λ t. record t { write_busy = true }) w) {
        usb = record (w.usb) { taken = at };
      } in
      skip_if (λ _ u. Shows all w u × (u.tmc.write_busy ≡ not last) × (u.tmc.parameter_set ≡ false))
        (first && w.tmc.parameter_set && dat == b'!') _ _ _ v plain
        (Ensures-bind (λ t u. Shows all v u × (u.tmc.handle_read_status ≡ v.tmc.handle_read_status))
          (λ _ u. Shows all w u × (u.tmc.write_busy ≡ not last) × (u.tmc.parameter_set ≡ false))
          (send_to_device e len dat first last eom f v) _
          (device_sent len dat at first last eom v
            (record { not_pending = none; eoi_low = low; taken = refl }))
          λ t u h.
            let x = on_tmc (λ t. record t { parameter_set = false; write_busy = not last }) u in
            Ensures-weaken (λ _ y. (y.gpib.log ≡ x.gpib.log) × (y.tmc ≡ x.tmc))
              (λ _ u. Shows all w u × (u.tmc.write_busy ≡ not last) × (u.tmc.parameter_set ≡ false))
              (after_message e last t f x) (after_none last t x (h.1 ∙ none))
              λ _ y k. (
                Shows-same all v w u y refl k.0 h.0,
                ap (λ b. b.write_busy) k.1,
                ap (λ b. b.parameter_set) k.1,
              ))
