-- ===== src/Transfer/Agree.antt =====
-- `ProcessSentMessage` is the same with any timeout function that agrees while a write is busy.
pub mod Loop
use usb_gpib.Base.{
  ℕ, zero, suc, Bool, true, false, not, ◌≡◌, refl, ◌∙◌, ap, fun_ext, ◌+◌, ◌&&◌, ◌==◌, if◌then◌else◌,
}
use usb_gpib.State.{World, Env}
use usb_gpib.Exec.{M, pure, modify, skip, bind, when, Ensures, Ensures-bind, ◌>>=◌, ◌>>◌}
use usb_gpib.Endpoint.{on_tmc, endpoint_read}
use usb_gpib.Gpib.Lines.{on_lines, set_led, gpib_ren}
use usb_gpib.Gpib.Commands.{gpib_make_listener, gpib_untalk_unlisten}
use usb_gpib.Gpib.Handshake.{gpib_writedat_quick}
use usb_gpib.Gpib.Handshake.Apart.{
  Apart, Apart-refl, Keeps, Keeps-bind, Keeps-if, Keeps-pure, writedat-Keeps,
}
use usb_gpib.Gpib.Handshake.Agree.{
  busy, Agrees, Agrees-bind, Agrees-refl, Agrees-if, bind-ext, writedat-Agrees,
}
use usb_gpib.Gpib.Commands.Apart.{make_listener-Keeps, untalk_unlisten-Keeps}
use usb_gpib.Gpib.Commands.Agree.{make_listener-Agrees, untalk_unlisten-Agrees}
use usb_gpib.Parser.Message.{process_internal_command}
use usb_gpib.Control.{handle_read_status_byte}
use usb_gpib.Control.Serve.{handle_read_status_byte-Keeps}
use usb_gpib.Transfer.{
  answer_pending, write_loop, send_to_device, after_message, process_sent_message,
}
use Loop.{
  answer-Keeps, answer_pending-Keeps, answer_pending-Agrees, write_loop-Agrees, write_loop-Busy,
}

module _ (e : Env) (f g : M Bool) (agree : Agrees f g) (keeps : Keeps busy g) where
  when-Agrees :
      {B : Type 0} (t : Bool) (m m' : M (Unit {0})) (k : M B)
      → Agrees m m'
      → Agrees (when t m >>= λ _. k) (when t m' >>= λ _. k)
  when-Agrees true m m' k h w b = ap (λ o. bind o λ _. k) (h w b)
  when-Agrees false m m' k h w b = refl

  free-Agrees : Agrees (gpib_untalk_unlisten e f >> skip) (gpib_untalk_unlisten e g >> skip)
  free-Agrees w b = ap (λ o. bind o λ _. skip) (untalk_unlisten-Agrees e f g agree keeps w b)

  -- What follows the loop.
  abbrev freed : Bool → M Bool → Bool → M Bool
  freed last m t3 = do
    when (last && not t3) (gpib_untalk_unlisten e m >> skip)
    modify (on_lines (set_led true))
    pure t3

  send_to_device-Agrees :
      (len dat : ℕ) (first last eom : Bool)
      → Agrees
          (send_to_device e len dat first last eom f)
          (send_to_device e len dat first last eom g)
  unfolding send_to_device gpib_ren
  send_to_device-Agrees len dat first last eom w b =
      Agrees-bind (if first then gpib_make_listener e w.gpib_addr f else pure false)
        (if first then gpib_make_listener e w.gpib_addr g else pure false) _ _
        (Agrees-if first (gpib_make_listener e w.gpib_addr f) (gpib_make_listener e w.gpib_addr g)
          (pure false) (pure false) (make_listener-Agrees e f g agree keeps w.gpib_addr)
          (Agrees-refl (pure false)))
        (Keeps-if busy first (gpib_make_listener e w.gpib_addr g) (pure false)
          (make_listener-Keeps busy e g keeps w.gpib_addr) (Keeps-pure busy false))
        (λ t1 u x.
          Agrees-bind (if u.tmc.handle_read_status && not t1 then answer_pending e f else pure t1)
            (if u.tmc.handle_read_status && not t1 then answer_pending e g else pure t1) _ _
            (Agrees-if (u.tmc.handle_read_status && not t1) (answer_pending e f)
              (answer_pending e g) (pure t1) (pure t1) (answer_pending-Agrees e f g agree keeps)
              (Agrees-refl (pure t1)))
            (Keeps-if busy (u.tmc.handle_read_status && not t1) (answer_pending e g) (pure t1)
              (answer_pending-Keeps e f g agree keeps) (Keeps-pure busy t1))
            (λ t2 v y.
              ap (λ o. bind o (freed last f))
                (write_loop-Agrees e f g agree keeps len dat eom t2 v y)
              ∙ bind-ext (λ _ z. z.tmc.write_busy ≡ true) (write_loop e len dat eom t2 g v)
                  (freed last f) (freed last g)
                  (write_loop-Busy e f g agree keeps len dat eom t2 v y)
                  λ t3 z bz. when-Agrees (last && not t3) _ _ _ free-Agrees z bz)
            u x)
        _ b

  -- `after_message` uses it where the write is still busy.
  after_message-same :
      (last t : Bool) (w : World)
      → w.tmc.write_busy ≡ not last
      → after_message e last t f w ≡ after_message e last t g w
  unfolding after_message
  after_message-same true t w b = refl
  after_message-same false t w b = by_pending (w.tmc.handle_read_status && not t)
    where
      by_pending :
          (p : Bool)
          → when p
              (do
                gpib_untalk_unlisten e f >> skip
                handle_read_status_byte e
                (λ u. gpib_make_listener e u.gpib_addr f u) >> skip)
              w
            ≡ when p
                (do
                  gpib_untalk_unlisten e g >> skip
                  handle_read_status_byte e
                  (λ u. gpib_make_listener e u.gpib_addr g u) >> skip)
                w
      by_pending false = refl
      by_pending true =
          Agrees-bind (gpib_untalk_unlisten e f >> skip) (gpib_untalk_unlisten e g >> skip) _ _
            free-Agrees
            (Keeps-bind busy (gpib_untalk_unlisten e g) _ (untalk_unlisten-Keeps busy e g keeps)
              λ _ u. Apart-refl busy u)
            (λ _.
              Agrees-bind (handle_read_status_byte e) (handle_read_status_byte e) _ _
                (Agrees-refl (handle_read_status_byte e)) (answer-Keeps e)
                λ _ u x.
                  ap (λ o. bind o λ _. skip)
                    (make_listener-Agrees e f g agree keeps u.gpib_addr u x))
            w b

  -- The state when the first byte was read, and the end of the transfer.
  abbrev begun : World → World
  begun w = record (on_tmc (λ t. record t { write_busy = true }) w) {
    usb = record (w.usb) { taken = w.usb.taken + 1 };
  }

  abbrev ended : Bool → M Bool → Bool → M (Unit {0})
  ended last m t u =
      after_message e last t m
        (on_tmc (λ t. record t { parameter_set = false; write_busy = not last }) u)

  ended-same : (last : Bool) → ended last f ≡ ended last g
  ended-same last = fun_ext λ t. fun_ext λ u. after_message-same last t _ refl

  -- So the whole transfer is the same.
  pub process_sent_message-same :
      (len : ℕ) (first last eom : Bool) (w : World)
      → process_sent_message e len first last eom f w
        ≡ process_sent_message e len first last eom g w
  unfolding process_sent_message endpoint_read
  process_sent_message-same len first last eom w =
      by_internal (first && w.tmc.parameter_set && e.out_bytes w.usb.taken == b'!')
    where
      by_internal :
          (c : Bool)
          → bind
              ((if c
                  then process_internal_command e len >> pure false
                  else send_to_device e len (e.out_bytes w.usb.taken) first last eom f)
                (begun w))
              (ended last f)
            ≡ bind
                ((if c
                    then process_internal_command e len >> pure false
                    else send_to_device e len (e.out_bytes w.usb.taken) first last eom g)
                  (begun w))
                (ended last g)
      by_internal true =
          ap (bind ((process_internal_command e len >> pure false) (begun w))) (ended-same last)
      by_internal false =
          ap (λ o. bind o (ended last f))
            (send_to_device-Agrees len (e.out_bytes w.usb.taken) first last eom (begun w) refl)
          ∙ ap (bind (send_to_device e len (e.out_bytes w.usb.taken) first last eom g (begun w)))
              (ended-same last)
