-- ===== src/Gpib/Handshake/Sent.antt =====
-- A byte is sent, or the interface is recovered.
use usb_gpib.Base.{
  ℕ, Bool, true, false, not, ◌≡◌, refl, sym, ◌∙◌, if◌then◌else◌, [], ◌∷◌, ◌++◌, append_assoc,
}
use usb_gpib.State.{World, Lines, Env, BusEvent, message, command}
use usb_gpib.Exec.{M, pure, modify, bind, when, unless, ◌>>◌, Ensures, Ensures-bind}
use usb_gpib.Gpib.Lines.{on_lines, set_dav, gpib_recover}
use usb_gpib.Gpib.Timeouts.{SameBus, IsWatch}
use usb_gpib.Gpib.Sequence.{Ends}
use usb_gpib.Gpib.Handshake.{wait, seen, log_seen, offer, present, gpib_tx_quick, tx_end}
use usb_gpib.Gpib.Handshake.Quiet.{Watched, wait-Watched}

-- What an observer should see of a byte: a command, or a byte of a message with EOI as it is.
abbrev pub accepted : ℕ → Bool → Lines → BusEvent
accepted dat iscommand l = if iscommand then command dat else message dat l.eoi

module _ (e : Env) {f : M Bool} (watch : IsWatch f) where
  open watch use {Expired, frame}

  finish_cut :
      (b : BusEvent) (w u : World)
      → u.gpib.log ≡ w.gpib.log
      → Expired u
      → Ensures (Ends watch (b ∷ []) w) (tx_end true u)
  unfolding tx_end gpib_recover
  finish_cut b w u same x = record {
    done = λ h. cc;
    cut = λ _. (
      record {
        before = [];
        missing = b;
        rest = [];
        times = 0;
        split = refl;
        log_eq = rw (same, append_assoc) refl;
      },
      frame u _ _ x,
    );
  }

  finish_done :
      (b : BusEvent) (w u : World)
      → u.gpib.log ≡ w.gpib.log ++ (b ∷ [])
      → Ensures (Ends watch (b ∷ []) w) (tx_end false u)
  unfolding tx_end
  finish_done b w u h = record { done = λ _. h; cut = λ x. cc }

  -- The byte was taken, or nothing more is seen of it.
  abbrev Offered : BusEvent → World → Bool → World → Type 0
  Offered b w t u =
      (t ≡ false → u.gpib.log ≡ w.gpib.log ++ (b ∷ []))
      × (t ≡ true → (u.gpib.log ≡ w.gpib.log) × Expired u)

  -- The end of `offer`.
  withdraw : Bool → M Bool
  withdraw timedout = do
    modify (on_lines (set_dav false))
    when (not timedout) (modify log_seen)
    pure timedout

  withdraw-Offered :
      (t : Bool) (w u : World)
      → SameBus (on_lines (set_dav true) w) u
      → (t ≡ true → Expired u)
      → Ensures (Offered (seen w.gpib.lines) w) (withdraw t u)
  unfolding withdraw
  withdraw-Offered true w u h x = (λ c. cc, λ _. (h.log, frame u _ _ (x refl)))
  withdraw-Offered false w u h x = (λ _. rw (h.log, h.lines) refl, λ c. cc)

  offer-Offered :
      (quick : Bool) (w : World) → Ensures (Offered (seen w.gpib.lines) w) (offer e f quick w)
  unfolding offer withdraw
  offer-Offered quick w =
      let v = on_lines (set_dav true) w in
      Ensures-bind (Watched e watch v) (Offered (seen w.gpib.lines) w)
        (wait e (λ s. s.ndac) quick f v) _ (wait-Watched e watch (λ s. s.ndac) quick v)
        λ t u h. withdraw-Offered t w u h.0 h.1

  Offered-finish :
      (b : BusEvent) (t : Bool) (w v u : World)
      → v.gpib.log ≡ w.gpib.log
      → Offered b v t u
      → Ensures (Ends watch (b ∷ []) w) (tx_end t u)
  Offered-finish b true w v u same h = finish_cut b w u ((h.1 refl).0 ∙ same) (h.1 refl).1
  Offered-finish b false w v u same h = finish_done b w u (h.0 refl ∙ rw same refl)

  -- What follows the wait for NRFD.
  after_ready :
      (dat : ℕ) (iscommand quick t : Bool) (w u : World)
      → Watched e watch (on_lines (present dat iscommand) w) t u
      → Ensures
          (Ends watch (accepted dat iscommand w.gpib.lines ∷ []) w)
          (bind (unless t (offer e f quick) u) tx_end)
  after_ready dat iscommand quick true w u h =
      finish_cut (accepted dat iscommand w.gpib.lines) w u h.0.log (h.1 refl)
  after_ready dat iscommand quick false w u h =
      let b = accepted dat iscommand w.gpib.lines in
      Ensures-bind (Offered b u) (Ends watch (b ∷ []) w) (offer e f quick u) tx_end
        (rw (presented iscommand refl) at (offer-Offered quick u))
        λ t v k. Offered-finish b t w u v h.0.log k
    where
      presented : (c : Bool) → c ≡ iscommand → seen u.gpib.lines ≡ accepted dat c w.gpib.lines
      presented true is_c = rw (h.0.lines, sym is_c) refl
      presented false is_c = rw (h.0.lines, sym is_c) refl

  pub tx-Ends :
      (dat : ℕ) (iscommand quick : Bool) (w : World)
      → Ensures
          (Ends watch (accepted dat iscommand w.gpib.lines ∷ []) w)
          (gpib_tx_quick e dat iscommand f quick w)
  unfolding gpib_tx_quick
  tx-Ends dat iscommand quick w =
      let b = accepted dat iscommand w.gpib.lines in
      let v = on_lines (present dat iscommand) w in
      Ensures-bind (Watched e watch v) (Ends watch (b ∷ []) w) (wait e (λ s. s.nrfd) quick f v) _
        (wait-Watched e watch (λ s. s.nrfd) quick v)
        λ t u h. after_ready dat iscommand quick t w u h
