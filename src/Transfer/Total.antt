-- ===== src/Transfer/Total.antt =====
-- The transfers return, with a timeout function that says `true` before long.
use usb_gpib.Base.{
  ℕ, zero, suc, Bool, true, false, not, ◌≡◌, inr, ◌+◌, ◌<◌, ◌&&◌, ◌==◌, if◌then◌else◌, arith,
}
use usb_gpib.State.{World, Env}
use usb_gpib.Exec.{
  M, pure, skip, when, ◌>>=◌, ◌>>◌, Returns, Returns-bind, Returns-weaken, Returning,
  Returning-bind, Returning-when,
}
use usb_gpib.Endpoint.{endpoint_read, on_tmc}
use usb_gpib.Gpib.Lines.{gpib_ren}
use usb_gpib.Gpib.Timeouts.{
  IsFinite, timeout_start, is_timedout, main_countdown, countdown-IsFinite,
}
use usb_gpib.Gpib.Handshake.{gpib_readdat_quick, gpib_writedat_quick}
use usb_gpib.Gpib.Handshake.Paced.{Coming}
use usb_gpib.Gpib.Handshake.Total.{Total, writedat-Total, readdat-Total}
use usb_gpib.Gpib.Commands.{
  gpib_make_listener, gpib_make_talker, gpib_untalk_unlisten, gpib_read_status_byte,
}
use usb_gpib.Gpib.Commands.Total.{
  make_listener-Total, make_talker-Total, untalk_unlisten-Total, read_status_byte-Total,
}
use usb_gpib.Control.{handle_read_status_byte}
use usb_gpib.Transfer.{
  answer_pending, write_loop, send_to_device, after_message, process_sent_message, read_loop,
  get_next_message,
}

Returning-if :
    {A : Type 0} (b : Bool) (m k : M A) → Returning m → Returning k → Returning (if b then m else k)
Returning-if true m k h _ = h
Returning-if false m k _ h = h

module _ (e : Env) (long : 150000 < e.polls) where
  -- The countdown of a status request is 150000 calls long.
  status-Returning : Returning (handle_read_status_byte e)
  unfolding handle_read_status_byte gpib_ren timeout_start is_timedout
  status-Returning w =
      Returns-bind _ (λ a u. Unit {0}) (gpib_read_status_byte e w.gpib_addr is_timedout _) _
        (read_status_byte-Total e (countdown-IsFinite main_countdown) w.gpib_addr _
          (omega (arith, long)))
        λ status u h. tt

  module _ {f : M Bool} (c : IsFinite f) (followed : (w : World) → c.left w + c.pace < e.polls)
      (beat : (n : ℕ) → Coming e c.pace n) where
    total : {A : Type 0} (m : M A) → Total e c m → Returning m
    total m h w = Returns-weaken _ (λ a u. Unit {0}) (m w) (h w (followed w)) λ a u _. tt

    listen : (addr : ℕ) → Returning (gpib_make_listener e addr f)
    listen addr = total _ (make_listener-Total e c addr)

    free : Returning (gpib_untalk_unlisten e f)
    free = total _ (untalk_unlisten-Total e c)

    write : (dat : ℕ) (eoi : Bool) → Returning (gpib_writedat_quick e dat eoi f false)
    write dat eoi = total _ (writedat-Total e c dat eoi false (inr beat))

    read : Returning (gpib_readdat_quick e f false)
    read = total _ (readdat-Total e c false (inr beat))

    pending-Returning : Returning (answer_pending e f)
    unfolding answer_pending
    pending-Returning w =
        Returning-bind (gpib_untalk_unlisten e f) _ free
          (λ _.
            Returning-bind (handle_read_status_byte e) _ status-Returning
              λ _ u. listen u.gpib_addr u)
          w

    next_byte :
        (z : Bool) (dat : ℕ) (k : ℕ → M Bool)
        → ((d : ℕ) → Returning (k d))
        → Returning ((if z then pure dat else endpoint_read e) >>= k)
    unfolding endpoint_read
    next_byte true dat k h w = h dat w
    next_byte false dat k h w = h (e.out_bytes w.usb.taken) _

    loop-Returning : (n dat : ℕ) (eom t : Bool) → Returning (write_loop e n dat eom t f)
    unfolding write_loop
    loop-Returning zero dat eom t w = tt
    loop-Returning (suc n) dat eom true w = tt
    loop-Returning (suc n) dat eom false w =
        Returning-bind (if w.tmc.handle_read_status then answer_pending e f else pure false) _
          (Returning-if w.tmc.handle_read_status (answer_pending e f) (pure false) pending-Returning
            (λ u. tt))
          (λ _.
            Returning-bind (gpib_writedat_quick e dat (n == 0 && eom) f false) _
              (write dat (n == 0 && eom))
              λ t. next_byte (n == 0) dat _ λ d. loop-Returning n d eom t)
          w

    device-Returning :
        (len dat : ℕ) (first last eom : Bool)
        → Returning (send_to_device e len dat first last eom f)
    unfolding send_to_device gpib_ren
    device-Returning len dat first last eom w =
        Returning-bind (if first then gpib_make_listener e w.gpib_addr f else pure false) _
          (Returning-if first (gpib_make_listener e w.gpib_addr f) (pure false) (listen w.gpib_addr)
            (λ u. tt))
          (λ t1 u.
            Returning-bind
              (if u.tmc.handle_read_status && not t1 then answer_pending e f else pure t1) _
              (Returning-if (u.tmc.handle_read_status && not t1) (answer_pending e f) (pure t1)
                pending-Returning (λ v. tt))
              (λ t2.
                Returning-bind (write_loop e len dat eom t2 f) _ (loop-Returning len dat eom t2)
                  λ t3.
                    Returning-bind (when (last && not t3) (gpib_untalk_unlisten e f >> skip)) _
                      (Returning-when (last && not t3) (gpib_untalk_unlisten e f >> skip)
                        (Returning-bind (gpib_untalk_unlisten e f) _ free λ _ v. tt))
                      λ _ v. tt)
              u)
          _

    after-Returning : (last t : Bool) → Returning (after_message e last t f)
    unfolding after_message
    after-Returning last t w =
        Returning-when (w.tmc.handle_read_status && not t) _
          (Returning-bind (when (not last) (gpib_untalk_unlisten e f >> skip)) _
            (Returning-when (not last) (gpib_untalk_unlisten e f >> skip)
              (Returning-bind (gpib_untalk_unlisten e f) _ free λ _ v. tt))
            λ _. Returning-bind (handle_read_status_byte e) _ status-Returning λ _ u.
              Returning-when (not last) (gpib_make_listener e u.gpib_addr f >> skip)
                (Returning-bind (gpib_make_listener e u.gpib_addr f) _ (listen u.gpib_addr)
                  λ _ v. tt)
                u)
          w

    -- A message to the device.
    pub message-Returns :
        (len : ℕ) (first last eom : Bool) (w : World)
        → (first && w.tmc.parameter_set && e.out_bytes w.usb.taken == b'!') ≡ false
        → Returns (λ _ u. Unit {0}) (process_sent_message e len first last eom f w)
    unfolding process_sent_message endpoint_read
    message-Returns len first last eom w text =
        let v = record (on_tmc (λ t. record t { write_busy = true }) w) {
          usb = record (w.usb) { taken = w.usb.taken + 1 };
        } in
        rw text (
          Returning-bind (send_to_device e len (e.out_bytes w.usb.taken) first last eom f) _
            (device-Returning len (e.out_bytes w.usb.taken) first last eom)
            (λ t u. after-Returning last t _) v)

    read_loop-Returning : (n : ℕ) (eoi t : Bool) → Returning (read_loop e n eoi t f)
    unfolding read_loop
    read_loop-Returning zero eoi t w = tt
    read_loop-Returning (suc n) true t w = tt
    read_loop-Returning (suc n) false true w = tt
    read_loop-Returning (suc n) false false w =
        Returning-bind (gpib_readdat_quick e f false) _ read
          (λ r.
            Returning-bind (read_loop e n r.1 r.2 f) _ (read_loop-Returning n r.1 r.2) λ q v. tt)
          w

    -- A part of a message from it.
    pub part-Returning : (maxlen : ℕ) (first : Bool) → Returning (get_next_message e maxlen first f)
    unfolding get_next_message gpib_ren
    part-Returning maxlen first w =
        Returning-bind (if first then gpib_make_talker e w.gpib_addr f else pure false) _
          (Returning-if first (gpib_make_talker e w.gpib_addr f) (pure false)
            (total _ (make_talker-Total e c w.gpib_addr)) (λ u. tt))
          (λ t.
            Returning-bind (read_loop e maxlen false t f) _ (read_loop-Returning maxlen false t)
              λ r.
                Returning-bind (when (r.1 && not r.2) (gpib_untalk_unlisten e f >> skip)) _
                  (Returning-when (r.1 && not r.2) (gpib_untalk_unlisten e f >> skip)
                    (Returning-bind (gpib_untalk_unlisten e f) _ free λ _ v. tt))
                  λ _ v. tt)
          _
