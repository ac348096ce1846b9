-- ===== src/Transfer/Gathered.antt =====
-- What `GetNextMessage` shows on the bus, while control requests arrive.
use usb_gpib.Base.{
  ℕ, zero, suc, Bool, true, false, not, ◌≡◌, refl, ◌∙◌, ◌⊎◌, inl, inr, List, [], ◌∷◌, ◌++◌,
  append-nil, append_assoc, ◌≤◌, ◌&&◌, ◌||◌, length, if◌then◌else◌,
}
use usb_gpib.State.{World, Env, BusEvent, command, remote}
use usb_gpib.Exec.{M, pure, skip, when, ◌>>◌, Ensures, Ensures-bind, Ensures-and, Ensures-weaken}
use usb_gpib.Gpib.Lines.{on_lines, set_led, gpib_ren, observe}
use usb_gpib.Gpib.Timeouts.{IsWatch}
use usb_gpib.Gpib.Sequence.{IsCut, Ends, Ends-append, Ends-longer}
use usb_gpib.Gpib.Handshake.{gpib_readdat_quick}
use usb_gpib.Gpib.Handshake.Received.{Read, readdat-Read}
use usb_gpib.Gpib.Commands.{gpib_make_talker, gpib_untalk_unlisten}
use usb_gpib.Gpib.Commands.Address.{address_bytes}
use usb_gpib.Gpib.Commands.Roles.{make_talker-Ends, untalk_unlisten-Ends}
use usb_gpib.Control.{tmc_timedout}
use usb_gpib.Control.Watch.{IsOther, tmc_timedout-IsWatch, tmc_timedout-Keeps}
use usb_gpib.Transfer.{read_loop, get_next_message}
use usb_gpib.Transfer.Delivered.{closing}
use usb_gpib.Transfer.Received.{get_next_message-length}

-- REN, and the addressing of the device as a talker in the first part of a message.
abbrev pub asking : Bool → ℕ → List BusEvent
asking first addr =
    remote true ∷ (if first then command 0x3f ∷ command 0x20 ∷ address_bytes 0x40 addr else [])

abbrev AreBytes : List ℕ → Type 0
AreBytes [] = Unit {0}
AreBytes (c ∷ cs) = (c ≤ 255) × AreBytes cs

module _ (e : Env) {f : M Bool} (watch : IsWatch f) where
  open watch use {Expired}

  -- The events were seen; or the end of the message is missing, after a timeout.
  Half : List BusEvent → World → Bool → World → Type 0
  Half bs w t u =
      (t ≡ false → u.gpib.log ≡ w.gpib.log ++ bs)
      × (t ≡ true → IsCut (bs ++ closing true) w u × Expired u)

  Ends-Half : (bs : List BusEvent) (w u : World) (t : Bool) → Ends watch bs w t u → Half bs w t u
  unfolding Half
  Ends-Half bs w u t h =
      (h.done, λ x. (Ends-longer watch bs (closing true) w u (cut_short t x h)).cut refl)
    where
      cut_short : (t : Bool) → t ≡ true → Ends watch bs w t u → Ends watch bs w true u
      cut_short true x h = h
      cut_short false x h = cc

  -- After a byte.
  Read-Half :
      (bs : List BusEvent) (w u v : World) (r : ℕ × Bool × Bool)
      → u.gpib.log ≡ w.gpib.log ++ bs
      → Read e watch u r v
      → Half bs w r.2 v
  unfolding Half
  Read-Half bs w u v (c, eoi, true) same h = (
    λ x. cc,
    λ _. (
      record {
        before = bs;
        missing = command 0x3f;
        rest = command 0x5f ∷ [];
        times = 0;
        split = refl;
        log_eq = h.1 ∙ rw (same, append_assoc) refl;
      },
      h.2 refl,
    ),
  )
  Read-Half bs w u v (c, eoi, false) same h = (λ _. h.1 ∙ rw append-nil same, λ x. cc)

  loop-Half :
      (n : ℕ) (eoi t : Bool) (bs : List BusEvent) (w u : World)
      → Half bs w t u
      → Ensures (λ r v. AreBytes r.0 × Half bs w r.2 v) (read_loop e n eoi t f u)
  unfolding read_loop Half
  loop-Half zero eoi t bs w u h = (tt, h)
  loop-Half (suc n) true t bs w u h = (tt, h)
  loop-Half (suc n) false true bs w u h = (tt, h)
  loop-Half (suc n) false false bs w u h =
      Ensures-bind (Read e watch u) (λ r v. AreBytes r.0 × Half bs w r.2 v)
        (gpib_readdat_quick e f false u) _ (readdat-Read e watch false u)
        λ r v k.
          Ensures-bind (λ q x. AreBytes q.0 × Half bs w q.2 x)
            (λ q x. AreBytes q.0 × Half bs w q.2 x) (read_loop e n r.1 r.2 f v) _
            (loop-Half n r.1 r.2 bs w v (Read-Half bs w u v r (h.0 refl) k))
            λ q x g. ((k.0, g.0), g.1)

  -- All was seen, with the end of the message if it was the last part of it; or there was a timeout.
  pub Gathers : List BusEvent → World → Bool → World → Type 0
  Gathers bs w last u =
      (u.gpib.log ≡ w.gpib.log ++ (bs ++ closing last))
      ⊎ (IsCut (bs ++ closing true) w u × (last ≡ true))

  gathered :
      (bs : List BusEvent) (eoi t : Bool) (w v : World)
      → Half bs w t v
      → Ensures
          (λ _ u. Gathers bs w (eoi || t) u)
          (when (eoi && not t) (gpib_untalk_unlisten e f >> skip) v)
  unfolding Half Gathers
  gathered bs true true w v h = inr ((h.1 refl).0, refl)
  gathered bs false true w v h = inr ((h.1 refl).0, refl)
  gathered bs false false w v h = inl (h.0 refl ∙ rw append-nil refl)
  gathered bs true false w v h =
      Ensures-bind (Ends watch (closing true) v) (λ _ u. Gathers bs w true u)
        (gpib_untalk_unlisten e f v) _ (untalk_unlisten-Ends e watch v)
        λ t u k. by_end t u (Ends-append watch bs (closing true) w v u t (h.0 refl) k)
    where
      by_end : (t : Bool) (u : World) → Ends watch (bs ++ closing true) w t u → Gathers bs w true u
      by_end true u k = inr ((k.cut refl).0, refl)
      by_end false u k = inl (k.done refl)

  opened :
      (first : Bool) (addr : ℕ) (w v : World)
      → v.gpib.log ≡ w.gpib.log ++ (remote true ∷ [])
      → Ensures
          (Ends watch (asking first addr) w)
          ((if first then gpib_make_talker e addr f else pure false) v)
  opened true addr w v log =
      let bs = command 0x3f ∷ command 0x20 ∷ address_bytes 0x40 addr in
      Ensures-weaken (Ends watch bs v) (Ends watch (asking true addr) w)
        (gpib_make_talker e addr f v) (make_talker-Ends e watch addr v)
        λ t u h. Ends-append watch (remote true ∷ []) bs w v u t log h
  opened false addr w v log = record { done = λ d. log; cut = λ d. cc }

  message-Gathers :
      (maxlen : ℕ) (first : Bool) (w : World)
      → Ensures
          (λ r u. AreBytes r.0 × Gathers (asking first w.gpib_addr) w r.1 u)
          (get_next_message e maxlen first f w)
  unfolding get_next_message gpib_ren Gathers
  message-Gathers maxlen first w =
      let bs = asking first w.gpib_addr in
      let Q = λ (r : List ℕ × Bool) (u : World). AreBytes r.0 × Gathers bs w r.1 u in
      let v0 =
        on_lines (set_led false)
          (observe (remote true) (on_lines (λ l. record l { ren = true }) w)) in
      Ensures-bind (Ends watch bs w) Q
        ((if first then gpib_make_talker e w.gpib_addr f else pure false) v0) _
        (opened first w.gpib_addr w v0 refl)
        λ t u h.
          Ensures-bind (λ r v. AreBytes r.0 × Half bs w r.2 v) Q (read_loop e maxlen false t f u) _
            (loop-Half maxlen false t bs w u (Ends-Half bs w u t h))
            λ r v k.
              Ensures-bind (λ _ x. Gathers bs w (r.1 || r.2) x) Q
                (when (r.1 && not r.2) (gpib_untalk_unlisten e f >> skip) v) _
                (gathered bs r.1 r.2 w v k.1)
                λ _ x g. (k.0, shown x (on_lines (set_led true) x) (r.1 || r.2) refl g)
    where
      shown :
          (x y : World) (last : Bool)
          → y.gpib.log ≡ x.gpib.log
          → Gathers (asking first w.gpib_addr) w last x
          → Gathers (asking first w.gpib_addr) w last y
      shown x y last same (inl h) = inl (same ∙ h)
      shown x y last same (inr h) = inr (
        record {
          before = h.0.before;
          missing = h.0.missing;
          rest = h.0.rest;
          times = h.0.times;
          split = h.0.split;
          log_eq = same ∙ h.0.log_eq;
        },
        h.1,
      )

-- A part of a message that was read: its bytes, whether more follow, and what was seen on the bus.
pub record IsGathered (maxlen : ℕ) (first : Bool) (w : World) (r : List ℕ × Bool) (u : World)
    : Type 0 where
  pub bytes : AreBytes r.0
  pub fits : length r.0 ≤ maxlen
  pub full : (r.1 ≡ true) ⊎ (length r.0 ≡ maxlen)
  pub shown :
      (u.gpib.log ≡ w.gpib.log ++ (asking first w.gpib_addr ++ closing r.1))
      ⊎ (IsCut (asking first w.gpib_addr ++ closing true) w u × (r.1 ≡ true))

-- Whatever control requests arrive, and at whatever polls of the bus, but none for the status byte:
-- `GetNextMessage` with `tmc_gpib_read_timedout` gives back bytes, no more than there is room for, and says
-- that more follow only where it has filled the room. It asserts REN, addresses the device as a talker
-- for the first part of a message, and frees the bus after the last one; or what was seen is a proper
-- beginning of that, followed by a recovery, and the part counts as the last one.
pub get_next_message-IsGathered :
    (e : Env) (maxlen : ℕ) (first : Bool) (w : World)
    → ((n : ℕ) → IsOther (e.control n))
    → Ensures
        (λ r u. IsGathered maxlen first w r u)
        (get_next_message e maxlen first (tmc_timedout e) w)
unfolding Gathers
get_next_message-IsGathered e maxlen first w others =
    let run = get_next_message e maxlen first (tmc_timedout e) w in
    let watch = tmc_timedout-IsWatch e others in
    Ensures-weaken
      (λ r u.
        (AreBytes r.0 × Gathers e watch (asking first w.gpib_addr) w r.1 u)
        × ((length r.0 ≤ maxlen) × ((r.1 ≡ true) ⊎ (length r.0 ≡ maxlen))))
      (λ r u. IsGathered maxlen first w r u) run
      (Ensures-and _ _ run (message-Gathers e watch maxlen first w)
        (get_next_message-length e (tmc_timedout e) (tmc_timedout-Keeps e others) maxlen first w))
      λ r u h. record { bytes = h.0.0; fits = h.1.0; full = h.1.1; shown = h.0.1 }
