-- ===== src/Transfer/Carried.antt =====
-- `ProcessSentMessage` while any control requests arrive, those for the status byte included.
pub mod Requests
pub mod Whole
use usb_gpib.Base.{
  ℕ, zero, suc, Bool, true, false, not, ◌≡◌, refl, sym, ◌∙◌, ap, subst, ◌⊎◌, inl, inr, List, [],
  ◌∷◌, ◌++◌, append_assoc, append-nil, ◌&&◌, ◌+◌, ◌==◌, if◌then◌else◌,
}
use usb_gpib.State.{World, Env, message, command, remote}
use usb_gpib.Exec.{
  M, pure, skip, bind, when, ◌>>◌, Ensures, Ensures-bind, Ensures-and, Ensures-weaken,
}
use usb_gpib.Endpoint.{on_tmc, endpoint_read, select, control_ep}
use usb_gpib.Gpib.Lines.{on_lines, set_led, observe, gpib_ren}
use usb_gpib.Gpib.Timeouts.{timeout_start, is_timedout, main_countdown, countdown-IsWatch}
use usb_gpib.Gpib.Sequence.{Ends}
use usb_gpib.Gpib.Messages.{
  messages, messages-append, SameMessages, Shows-SameMessages, Ends-SameMessages, Ends-one,
  messages-address_bytes, messages-polled,
}
use usb_gpib.Gpib.Handshake.{gpib_writedat_quick}
use usb_gpib.Gpib.Handshake.Apart.{Apart, Apart-refl, Apart-trans}
use usb_gpib.Gpib.Handshake.Agree.{busy}
use usb_gpib.Gpib.Commands.{gpib_make_listener, gpib_untalk_unlisten, gpib_read_status_byte}
use usb_gpib.Gpib.Commands.Address.{address_bytes}
use usb_gpib.Gpib.Commands.Poll.{polled, Polled, read_status_byte-Polled}
use usb_gpib.Gpib.Commands.Roles.{make_listener-Ends, untalk_unlisten-Ends}
use usb_gpib.Gpib.Commands.Apart.{make_listener-Keeps, untalk_unlisten-Keeps}
use usb_gpib.Control.{handle_read_status_byte, answer_status_byte}
use usb_gpib.Control.Status.{IsAnswered, handle_read_status_byte-IsAnswered}
use usb_gpib.Control.Watch.{IsAborted}
use usb_gpib.Control.Deferred.{deferring, deferring-IsWatch, deferring-Keeps, expired-IsAborted}
use usb_gpib.Transfer.{
  answer_pending, write_loop, send_to_device, after_message, process_sent_message,
}
use usb_gpib.Transfer.Agree.Loop.{answer-Keeps}
use usb_gpib.Transfer.Sent.{Sends, writedat_sent}

-- The bytes that the host sends, each with EOI: so many, the first of them, and the number of the next.
abbrev pub host_bytes : Env → ℕ → ℕ → ℕ → Bool → List (ℕ × Bool)
host_bytes e zero dat at eom = []
host_bytes e (suc n) dat at eom =
    (dat, n == 0 && eom) ∷ host_bytes e n (e.out_bytes at) (at + 1) eom

-- The device was sent a beginning of these.
pub record IsBeginning (ps : List (ℕ × Bool)) (w u : World) : Type 0 where
  pub part : List (ℕ × Bool)
  pub rest : List (ℕ × Bool)
  pub split : ps ≡ part ++ rest
  pub sent : messages u.gpib.log ≡ messages w.gpib.log ++ part

-- All of these were sent, or a beginning of them and the transfer was aborted.
abbrev pub Carries : List (ℕ × Bool) → World → Bool → World → Type 0
Carries ps w t u =
    (t ≡ false → messages u.gpib.log ≡ messages w.gpib.log ++ ps)
    × (t ≡ true → IsBeginning ps w u × IsAborted u)

pub Carries-longer :
    (ps qs : List (ℕ × Bool)) (w u : World) → Carries ps w true u → Carries (ps ++ qs) w true u
Carries-longer ps qs w u h = (
  λ x. cc,
  λ _.
      let b = (h.1 refl).0 in
      (
        record {
          part = b.part;
          rest = b.rest ++ qs;
          split = rw (b.split, append_assoc);
          sent = b.sent;
        },
        (h.1 refl).1,
      ),
)

-- Nothing was sent in between.
pub Carries-start :
    (w u : World) (t : Bool) → SameMessages w u → (t ≡ true → IsAborted u) → Carries [] w t u
Carries-start w u t same x = (
  λ _. same ∙ rw append-nil refl,
  λ h. (record { part = []; rest = []; split = refl; sent = same ∙ rw append-nil refl }, x h),
)

pub Carries-after :
    (ps : List (ℕ × Bool)) (w u v : World) (t : Bool)
    → SameMessages u v
    → (IsAborted u → IsAborted v)
    → Carries ps w t u
    → Carries ps w t v
Carries-after ps w u v t same x h = (
  λ y. same ∙ h.0 y,
  λ y.
      let b = (h.1 y).0 in
      (record { part = b.part; rest = b.rest; split = b.split; sent = same ∙ b.sent }, x (h.1 y).1),
)

-- One more byte, after others.
pub Carries-byte :
    (ps : List (ℕ × Bool)) (p : ℕ × Bool) (w u v : World) (t : Bool)
    → Carries ps w false u
    → (t ≡ false → messages v.gpib.log ≡ messages u.gpib.log ++ (p ∷ []))
    → (t ≡ true → SameMessages u v × IsAborted v)
    → Carries (ps ++ (p ∷ [])) w t v
Carries-byte ps p w u v t h done cut = (
  λ x. done x ∙ rw (h.0 refl, append_assoc) refl,
  λ x. (record { part = ps; rest = p ∷ []; split = refl; sent = (cut x).0 ∙ h.0 refl }, (cut x).1),
)

module _ (e : Env) where
  -- Nothing is sent, but the flags and the bus may change.
  abbrev pub Aside : World → World → Type 0
  Aside w u = SameMessages w u × Apart busy w u

  pub Aside-trans : (u v w : World) → Aside u v → Aside v w → Aside u w
  Aside-trans u v w a b = (b.0 ∙ a.0, Apart-trans busy u v w a.1 b.1)

  pub listener-Aside :
      (addr : ℕ) (w : World)
      → Ensures
          (λ t u. Aside w u × (t ≡ true → IsAborted u))
          (gpib_make_listener e addr (deferring e) w)
  listener-Aside addr w =
      let bs = command 0x5f ∷ command 0x40 ∷ command 0x3f ∷ address_bytes 0x20 addr in
      let watch = deferring-IsWatch e in
      Ensures-weaken (λ t u. Ends watch bs w t u × Apart busy w u)
        (λ t u. Aside w u × (t ≡ true → IsAborted u)) (gpib_make_listener e addr (deferring e) w)
        (Ensures-and (Ends watch bs w) (λ t u. Apart busy w u)
          (gpib_make_listener e addr (deferring e) w) (make_listener-Ends e watch addr w)
          (make_listener-Keeps busy e (deferring e) (deferring-Keeps e) addr w))
        λ t u h. (
          (Ends-SameMessages watch bs w u t (messages-address_bytes 0x20 addr) h.0, h.1),
          λ x. expired-IsAborted e u (h.0.cut x).1,
        )

  pub free-Aside : (w : World) → Ensures (λ t u. Aside w u) (gpib_untalk_unlisten e (deferring e) w)
  free-Aside w =
      let bs = command 0x3f ∷ command 0x5f ∷ [] in
      let watch = deferring-IsWatch e in
      Ensures-weaken (λ t u. Ends watch bs w t u × Apart busy w u) (λ t u. Aside w u)
        (gpib_untalk_unlisten e (deferring e) w)
        (Ensures-and (Ends watch bs w) (λ t u. Apart busy w u)
          (gpib_untalk_unlisten e (deferring e) w) (untalk_unlisten-Ends e watch w)
          (untalk_unlisten-Keeps busy e (deferring e) (deferring-Keeps e) w))
        λ t u h. (Ends-SameMessages watch bs w u t refl h.0, h.1)

  -- The state when the serial poll starts.
  abbrev asked : World → World
  asked w =
      record (observe (remote true)
        (on_lines (λ l. record l { ren = true }) (select control_ep w))) {
          timeouts = record (w.timeouts) { main = 150000 };
        }

  asked-SameMessages : (w : World) → SameMessages w (asked w)
  asked-SameMessages w = messages-append w.gpib.log (remote true ∷ []) ∙ rw append-nil refl

  poll-SameMessages : (w : World) → Ensures (λ _ u. SameMessages w u) (handle_read_status_byte e w)
  unfolding handle_read_status_byte gpib_ren timeout_start answer_status_byte
  poll-SameMessages w =
      Ensures-bind (Polled (polled w.gpib_addr) (asked w)) (λ _ u. SameMessages w u)
        (gpib_read_status_byte e w.gpib_addr is_timedout (asked w)) _
        (read_status_byte-Polled e (countdown-IsWatch main_countdown) w.gpib_addr (asked w))
        λ status u h.
          Shows-SameMessages (polled w.gpib_addr) (asked w) u (messages-polled w.gpib_addr) h.1
          ∙ asked-SameMessages w

  -- The answer to a status request.
  pub answer-Aside :
      (w : World)
      → Ensures
          (λ _ u. Aside w u × (u.tmc.handle_read_status ≡ false))
          (handle_read_status_byte e w)
  answer-Aside w =
      Ensures-weaken (λ _ u. SameMessages w u × (Apart busy w u × IsAnswered e w u))
        (λ _ u. Aside w u × (u.tmc.handle_read_status ≡ false)) (handle_read_status_byte e w)
        (Ensures-and (λ _ u. SameMessages w u) (λ _ u. Apart busy w u × IsAnswered e w u)
          (handle_read_status_byte e w) (poll-SameMessages w)
          (Ensures-and (λ _ u. Apart busy w u) (λ _ u. IsAnswered e w u)
            (handle_read_status_byte e w) (answer-Keeps e w)
            (handle_read_status_byte-IsAnswered e w)))
        λ _ u h. ((h.0, h.1.0), h.1.1.served)

  -- A status request that waited is answered, and the device is a listener again.
  pub pending-Aside :
      (w : World)
      → Ensures (λ t u. Aside w u × (t ≡ true → IsAborted u)) (answer_pending e (deferring e) w)
  unfolding answer_pending
  pending-Aside w =
      let Q = λ (t : Bool) (u : World). Aside w u × (t ≡ true → IsAborted u) in
      Ensures-bind (λ t u. Aside w u) Q (gpib_untalk_unlisten e (deferring e) w) _ (free-Aside w)
        λ t u h.
          Ensures-bind (λ _ v. Aside u v × (v.tmc.handle_read_status ≡ false)) Q
            (handle_read_status_byte e u) _ (answer-Aside u)
            λ _ v k.
              Ensures-weaken (λ t x. Aside v x × (t ≡ true → IsAborted x)) Q
                (gpib_make_listener e v.gpib_addr (deferring e) v) (listener-Aside v.gpib_addr v)
                λ t x l. (Aside-trans w v x (Aside-trans w u v h k.0) l.0, l.1)

  -- EOI is released, and so many bytes were taken.
  abbrev pub Ready : ℕ → World → Type 0
  Ready at u = (u.gpib.lines.eoi ≡ false) × (u.usb.taken ≡ at)

  pub Ready-Aside : (at : ℕ) (u v : World) → Ready at u → Apart busy u v → Ready at v
  Ready-Aside at u v r a = (a.7 r.0, a.1 ∙ r.1)

  pub byte_carried :
      (dat : ℕ) (eoi : Bool) (ps : List (ℕ × Bool)) (w u : World)
      → u.gpib.lines.eoi ≡ false
      → Carries ps w false u
      → Ensures
          (λ t v. Carries (ps ++ ((dat, eoi) ∷ [])) w t v × Apart busy u v)
          (gpib_writedat_quick e dat eoi (deferring e) false u)
  byte_carried dat eoi ps w u low h =
      let watch = deferring-IsWatch e in
      Ensures-weaken (Sends e busy watch (deferring-Keeps e) (message dat eoi ∷ []) u)
        (λ t v. Carries (ps ++ ((dat, eoi) ∷ [])) w t v × Apart busy u v)
        (gpib_writedat_quick e dat eoi (deferring e) false u)
        (writedat_sent e busy watch (deferring-Keeps e) dat eoi false u low)
        λ t v k.
          let one = Ends-one watch dat eoi u v t k.0 in
          (
            Carries-byte ps (dat, eoi) w u v t h one.0
                λ x. (one.1 x, expired-IsAborted e v (k.0.cut x).1),
            k.1,
          )
