-- ===== src/Transfer/Agree/Loop.antt =====
-- The loop of `ProcessSentMessage`, with either timeout function.
use usb_gpib.Base.{ℕ, zero, suc, Bool, true, false, ◌≡◌, refl, ◌∙◌, ap, ◌&&◌, ◌==◌, if◌then◌else◌}
use usb_gpib.State.{World, Env}
use usb_gpib.Exec.{M, pure, Ensures, Ensures-bind, ◌>>=◌}
use usb_gpib.Endpoint.{endpoint_read}
use usb_gpib.Gpib.Commands.{gpib_make_listener, gpib_untalk_unlisten}
use usb_gpib.Gpib.Handshake.{gpib_writedat_quick}
use usb_gpib.Gpib.Handshake.Apart.{Apart, Keeps, Keeps-bind, Keeps-if, Keeps-pure, writedat-Keeps}
use usb_gpib.Gpib.Handshake.Agree.{
  busy, Agrees, Agrees-bind, Agrees-refl, Agrees-if, writedat-Agrees,
}
use usb_gpib.Gpib.Commands.Apart.{make_listener-Keeps, untalk_unlisten-Keeps}
use usb_gpib.Gpib.Commands.Agree.{make_listener-Agrees, untalk_unlisten-Agrees}
use usb_gpib.Control.{handle_read_status_byte}
use usb_gpib.Control.Serve.{handle_read_status_byte-Keeps}
use usb_gpib.Transfer.{answer_pending, write_loop}

module _ (e : Env) where
  -- The answer to a status request keeps a write busy.
  pub answer-Keeps : Keeps busy (handle_read_status_byte e)
  answer-Keeps =
      handle_read_status_byte-Keeps busy (λ t t' btag status h b. ap (λ t. t.write_busy) h ∙ b)
        (λ b b' h. h) e

module _ (e : Env) (f g : M Bool) (agree : Agrees f g) (keeps : Keeps busy g) where
  listen-Keeps : Keeps busy (λ w. gpib_make_listener e w.gpib_addr g w)
  listen-Keeps w = make_listener-Keeps busy e g keeps w.gpib_addr w

  pub answer_pending-Keeps : Keeps busy (answer_pending e g)
  unfolding answer_pending
  answer_pending-Keeps w =
      Keeps-bind busy (gpib_untalk_unlisten e g) _ (untalk_unlisten-Keeps busy e g keeps)
        (λ t. Keeps-bind busy (handle_read_status_byte e) _ (answer-Keeps e) λ _. listen-Keeps) w

  pub answer_pending-Agrees : Agrees (answer_pending e f) (answer_pending e g)
  unfolding answer_pending
  answer_pending-Agrees w b =
      Agrees-bind (gpib_untalk_unlisten e f) (gpib_untalk_unlisten e g) _ _
        (untalk_unlisten-Agrees e f g agree keeps) (untalk_unlisten-Keeps busy e g keeps)
        (λ t.
          Agrees-bind (handle_read_status_byte e) (handle_read_status_byte e) _ _
            (Agrees-refl (handle_read_status_byte e)) (answer-Keeps e)
            λ _ u x. make_listener-Agrees e f g agree keeps u.gpib_addr u x)
        w b

  -- `endpoint_read` keeps the write busy too.
  next_byte :
      {B : Type 0} (z : Bool) (dat : ℕ) (k k' : ℕ → M B)
      → ((d : ℕ) → Agrees (k d) (k' d))
      → Agrees
          ((if z then pure dat else endpoint_read e) >>= k)
          ((if z then pure dat else endpoint_read e) >>= k')
  unfolding endpoint_read
  next_byte true dat k k' h w b = h dat w b
  next_byte false dat k k' h w b = h (e.out_bytes w.usb.taken) _ b

  pub write_loop-Agrees :
      (n dat : ℕ) (eom t : Bool) → Agrees (write_loop e n dat eom t f) (write_loop e n dat eom t g)
  unfolding write_loop
  write_loop-Agrees zero dat eom t w b = refl
  write_loop-Agrees (suc n) dat eom true w b = refl
  write_loop-Agrees (suc n) dat eom false w b =
      Agrees-bind (if w.tmc.handle_read_status then answer_pending e f else pure false)
        (if w.tmc.handle_read_status then answer_pending e g else pure false) _ _
        (Agrees-if w.tmc.handle_read_status (answer_pending e f) (answer_pending e g) (pure false)
          (pure false) answer_pending-Agrees (Agrees-refl (pure false)))
        (Keeps-if busy w.tmc.handle_read_status (answer_pending e g) (pure false)
          answer_pending-Keeps (Keeps-pure busy false))
        (λ _.
          Agrees-bind (gpib_writedat_quick e dat (n == 0 && eom) f false)
            (gpib_writedat_quick e dat (n == 0 && eom) g false) _ _
            (writedat-Agrees e f g agree keeps dat (n == 0 && eom) false)
            (writedat-Keeps busy e g keeps dat (n == 0 && eom) false)
            λ t. next_byte (n == 0) dat _ _ λ d. write_loop-Agrees n d eom t)
        w b

  -- The write is busy after it.
  abbrev StaysBusy : {A : Type 0} → M A → Type 0
  StaysBusy m =
      (w : World) → w.tmc.write_busy ≡ true → Ensures (λ _ u. u.tmc.write_busy ≡ true) (m w)

  after_kept :
      {A B : Type 0} (m : M A) (k : A → M B)
      → Keeps busy m
      → ((a : A) → StaysBusy (k a))
      → StaysBusy (m >>= k)
  after_kept m k h hk w b =
      Ensures-bind (λ a u. Apart busy w u) (λ _ u. u.tmc.write_busy ≡ true) (m w) k (h w)
        λ a u kept. hk a u (kept.0 b)

  next_byte-Busy :
      {B : Type 0} (z : Bool) (dat : ℕ) (k : ℕ → M B)
      → ((d : ℕ) → StaysBusy (k d))
      → StaysBusy ((if z then pure dat else endpoint_read e) >>= k)
  unfolding endpoint_read
  next_byte-Busy true dat k h w b = h dat w b
  next_byte-Busy false dat k h w b = h (e.out_bytes w.usb.taken) _ b

  pub write_loop-Busy : (n dat : ℕ) (eom t : Bool) → StaysBusy (write_loop e n dat eom t g)
  unfolding write_loop
  write_loop-Busy zero dat eom t w b = b
  write_loop-Busy (suc n) dat eom true w b = b
  write_loop-Busy (suc n) dat eom false w b =
      after_kept (if w.tmc.handle_read_status then answer_pending e g else pure false) _
        (Keeps-if busy w.tmc.handle_read_status (answer_pending e g) (pure false)
          answer_pending-Keeps (Keeps-pure busy false))
        (λ _.
          after_kept (gpib_writedat_quick e dat (n == 0 && eom) g false) _
            (writedat-Keeps busy e g keeps dat (n == 0 && eom) false)
            λ t. next_byte-Busy (n == 0) dat _ λ d. write_loop-Busy n d eom t)
        w b
