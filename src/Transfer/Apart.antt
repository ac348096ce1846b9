-- ===== src/Transfer/Apart.antt =====
-- What the transfers leave alone, whatever control requests arrive.
use usb_gpib.Base.{ℕ, zero, suc, Bool, true, false, not, refl, ◌&&◌, ◌==◌, if◌then◌else◌}
use usb_gpib.State.{Env, Usb}
use usb_gpib.Exec.{M, pure, modify, skip, when, ◌>>◌}
use usb_gpib.Endpoint.{endpoint_read}
use usb_gpib.Gpib.Lines.{on_lines, set_led, gpib_ren}
use usb_gpib.Gpib.Handshake.{gpib_readdat_quick, gpib_writedat_quick}
use usb_gpib.Gpib.Handshake.Apart.{
  Side, Keeps, Keeps-bind, Keeps-pure, Keeps-if, Keeps-when, Apart-refl, writedat-Keeps,
  readdat-Keeps,
}
use usb_gpib.Gpib.Commands.{gpib_make_listener, gpib_make_talker, gpib_untalk_unlisten}
use usb_gpib.Gpib.Commands.Apart.{make_listener-Keeps, make_talker-Keeps, untalk_unlisten-Keeps}
use usb_gpib.Control.{handle_read_status_byte}
use usb_gpib.Transfer.{
  answer_pending, write_loop, send_to_device, after_message, read_loop, get_next_message,
}

module _ (s : Side) (usb_ok : (b b' : Usb) → s.SameUsb b b') (e : Env)
    (status-Keeps : Keeps s (handle_read_status_byte e)) (f : M Bool) (f-Keeps : Keeps s f) where
  free_then_skip : Keeps s (gpib_untalk_unlisten e f >> skip)
  free_then_skip =
      Keeps-bind s (gpib_untalk_unlisten e f) _ (untalk_unlisten-Keeps s e f f-Keeps)
        λ _ w. Apart-refl s w

  read-Keeps : Keeps s (endpoint_read e)
  unfolding endpoint_read
  read-Keeps w = (s.tmc-refl, usb_ok w.usb _, refl, refl, refl, refl, refl, λ low. low)

  led-Keeps : (b : Bool) → Keeps s (modify (on_lines (set_led b)))
  led-Keeps b w = Apart-refl s w

  pending-Keeps : Keeps s (answer_pending e f)
  unfolding answer_pending
  pending-Keeps w =
      Keeps-bind s (gpib_untalk_unlisten e f) _ (untalk_unlisten-Keeps s e f f-Keeps)
        (λ _.
          Keeps-bind s (handle_read_status_byte e) _ status-Keeps
            λ _ u. make_listener-Keeps s e f f-Keeps u.gpib_addr u)
        w

  loop-Keeps : (n dat : ℕ) (eom t : Bool) → Keeps s (write_loop e n dat eom t f)
  unfolding write_loop
  loop-Keeps zero dat eom t w = Apart-refl s w
  loop-Keeps (suc n) dat eom true w = Apart-refl s w
  loop-Keeps (suc n) dat eom false w =
      Keeps-bind s (if w.tmc.handle_read_status then answer_pending e f else pure false) _
        (Keeps-if s w.tmc.handle_read_status (answer_pending e f) (pure false) pending-Keeps
          (Keeps-pure s false))
        (λ _.
          Keeps-bind s (gpib_writedat_quick e dat (n == 0 && eom) f false) _
            (writedat-Keeps s e f f-Keeps dat (n == 0 && eom) false)
            λ t.
              Keeps-bind s (if n == 0 then pure dat else endpoint_read e) _
                (Keeps-if s (n == 0) (pure dat) (endpoint_read e) (Keeps-pure s dat) read-Keeps)
                λ d. loop-Keeps n d eom t)
        w

  pub device-Keeps :
      (len dat : ℕ) (first last eom : Bool) → Keeps s (send_to_device e len dat first last eom f)
  unfolding send_to_device gpib_ren
  device-Keeps len dat first last eom w =
      Keeps-bind s (if first then gpib_make_listener e w.gpib_addr f else pure false) _
        (Keeps-if s first (gpib_make_listener e w.gpib_addr f) (pure false)
          (make_listener-Keeps s e f f-Keeps w.gpib_addr) (Keeps-pure s false))
        (λ t1 u.
          Keeps-bind s (if u.tmc.handle_read_status && not t1 then answer_pending e f else pure t1)
            _
            (Keeps-if s (u.tmc.handle_read_status && not t1) (answer_pending e f) (pure t1)
              pending-Keeps (Keeps-pure s t1))
            (λ t2. Keeps-bind s (write_loop e len dat eom t2 f) _ (loop-Keeps len dat eom t2) λ t3.
              Keeps-bind s (when (last && not t3) (gpib_untalk_unlisten e f >> skip)) _
                (Keeps-when s (last && not t3) (gpib_untalk_unlisten e f >> skip) free_then_skip)
                λ _ v. Apart-refl s v)
            u)
        _

  pub after-Keeps : (last t : Bool) → Keeps s (after_message e last t f)
  unfolding after_message
  after-Keeps last t w =
      Keeps-when s (w.tmc.handle_read_status && not t) _
        (Keeps-bind s (when (not last) (gpib_untalk_unlisten e f >> skip)) _
          (Keeps-when s (not last) (gpib_untalk_unlisten e f >> skip) free_then_skip)
          λ _. Keeps-bind s (handle_read_status_byte e) _ status-Keeps λ _ u.
            Keeps-when s (not last) (gpib_make_listener e u.gpib_addr f >> skip)
              (Keeps-bind s (gpib_make_listener e u.gpib_addr f) _
                (make_listener-Keeps s e f f-Keeps u.gpib_addr) λ _ v. Apart-refl s v)
              u)
        w

  read_loop-Keeps : (n : ℕ) (eoi t : Bool) → Keeps s (read_loop e n eoi t f)
  unfolding read_loop
  read_loop-Keeps zero eoi t w = Apart-refl s w
  read_loop-Keeps (suc n) true t w = Apart-refl s w
  read_loop-Keeps (suc n) false true w = Apart-refl s w
  read_loop-Keeps (suc n) false false w =
      Keeps-bind s (gpib_readdat_quick e f false) _ (readdat-Keeps s e f f-Keeps false)
        (λ r.
          Keeps-bind s (read_loop e n r.1 r.2 f) _ (read_loop-Keeps n r.1 r.2)
            λ q v. Apart-refl s v)
        w

  pub part-Keeps : (maxlen : ℕ) (first : Bool) → Keeps s (get_next_message e maxlen first f)
  unfolding get_next_message gpib_ren
  part-Keeps maxlen first w =
      Keeps-bind s (if first then gpib_make_talker e w.gpib_addr f else pure false) _
        (Keeps-if s first (gpib_make_talker e w.gpib_addr f) (pure false)
          (make_talker-Keeps s e f f-Keeps w.gpib_addr) (Keeps-pure s false))
        (λ t. Keeps-bind s (read_loop e maxlen false t f) _ (read_loop-Keeps maxlen false t) λ r.
          Keeps-bind s (when (r.1 && not r.2) (gpib_untalk_unlisten e f >> skip)) _
            (Keeps-when s (r.1 && not r.2) (gpib_untalk_unlisten e f >> skip) free_then_skip)
            λ _ v. Apart-refl s v)
        _
