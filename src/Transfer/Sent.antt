-- ===== src/Transfer/Sent.antt =====
-- The bytes of a message to the device, on the bus.
use usb_gpib.Base.{
  ℕ, zero, suc, Bool, true, false, ◌≡◌, refl, ◌∙◌, subst, List, [], ◌∷◌, ◌++◌, append_assoc,
  append-nil, ◌&&◌, ◌+◌, ◌==◌, if◌then◌else◌, arith,
}
use usb_gpib.State.{World, Env, BusEvent, message}
use usb_gpib.Exec.{M, pure, bind, Ensures, Ensures-bind, Ensures-and, Ensures-weaken}
use usb_gpib.Endpoint.{endpoint_read}
use usb_gpib.Gpib.Lines.{on_lines, set_eoi}
use usb_gpib.Gpib.Timeouts.{IsWatch}
use usb_gpib.Gpib.Sequence.{Ends, Ends-append, Ends-frame, Ends-longer, Ends-apart}
use usb_gpib.Gpib.Handshake.{gpib_tx_quick, gpib_writedat_quick}
use usb_gpib.Gpib.Handshake.Sent.{tx-Ends}
use usb_gpib.Gpib.Handshake.Apart.{Side, steady, Apart, Keeps, tx-Keeps}
use usb_gpib.Transfer.{write_loop}

-- The events of the loop: the bytes left, the byte at hand, and the number of the next one.
abbrev pub sent : Env → ℕ → ℕ → ℕ → Bool → List BusEvent
sent e zero dat at eom = []
sent e (suc n) dat at eom = message dat (n == 0 && eom) ∷ sent e n (e.out_bytes at) (at + 1) eom

pub suc-positive : (n : ℕ) → (suc n == 0) ≡ false
suc-positive n = ground arith

-- No status request waits.
pub none_pending :
    {A : Type 0} (Q : A → World → Type 0) (p t : Bool) (m : M Bool) (k : Bool → M A) (u : World)
    → p ≡ false
    → Ensures Q (k t u)
    → Ensures Q (bind ((if p then m else pure t) u) k)
none_pending Q true t m k u low h = cc
none_pending Q false t m k u low h = h

module _ (e : Env) (s : Side) {f : M Bool} (watch : IsWatch f) (keeps : Keeps s f) where
  -- Sent or cut, with the rest of the state the same.
  abbrev pub Sends : List BusEvent → World → Bool → World → Type 0
  Sends bs w t u = Ends watch bs w t u × Apart s w u

  data_byte :
      (dat : ℕ) (quick : Bool) (w : World)
      → Ensures (Sends (message dat w.gpib.lines.eoi ∷ []) w) (gpib_tx_quick e dat false f quick w)
  data_byte dat quick w =
      Ensures-and (Ends watch (message dat w.gpib.lines.eoi ∷ []) w) (λ t u. Apart s w u)
        (gpib_tx_quick e dat false f quick w) (tx-Ends e watch dat false quick w)
        (tx-Keeps s e f keeps dat false quick w)

  -- EOI is released after the byte.
  released_after :
      (dat : ℕ) (eoi : Bool) (w v u : World) (t : Bool)
      → v.gpib.log ≡ w.gpib.log
      → Ends watch (message dat eoi ∷ []) v t u
      → Ends watch (message dat eoi ∷ []) w t (on_lines (set_eoi false) u)
  released_after dat eoi w v u t same h =
      Ends-frame watch (message dat eoi ∷ []) w u t _ refl
        (Ends-append watch [] (message dat eoi ∷ []) w v u t (rw (same, append-nil) refl) h)

  low_after : (w u : World) → Apart s w u → Apart s w (on_lines (set_eoi false) u)
  low_after w u a = (a.0, a.1, a.2, a.3, a.4, a.5, a.6, λ _. refl)

  low_after_set :
      (w u : World) → Apart s (on_lines (set_eoi true) w) u → Apart s w (on_lines (set_eoi false) u)
  low_after_set w u a = (a.0, a.1, a.2, a.3, a.4, a.5, a.6, λ _. refl)

  -- `gpib_writedat_quick`, where EOI was released before it.
  pub writedat_sent :
      (dat : ℕ) (eoi quick : Bool) (w : World)
      → w.gpib.lines.eoi ≡ false
      → Ensures (Sends (message dat eoi ∷ []) w) (gpib_writedat_quick e dat eoi f quick w)
  unfolding gpib_writedat_quick
  writedat_sent dat true quick w low =
      let v = on_lines (set_eoi true) w in
      Ensures-bind (Sends (message dat true ∷ []) v) (Sends (message dat true ∷ []) w)
        (gpib_tx_quick e dat false f quick v) _ (data_byte dat quick v)
        λ t u h. (released_after dat true w v u t refl h.0, low_after_set w u h.1)
  writedat_sent dat false quick w low =
      Ensures-bind (Sends (message dat w.gpib.lines.eoi ∷ []) w) (Sends (message dat false ∷ []) w)
        (gpib_tx_quick e dat false f quick w) _ (data_byte dat quick w)
        λ t u h. (
          released_after dat false w w u t refl
              (subst (λ b. Ends watch (message dat b ∷ []) w t u) low h.0),
          low_after w u h.1,
        )

module _ (e : Env) {f : M Bool} (watch : IsWatch f) (keeps : Keeps steady f) where
  -- What the loop leaves: the events that were seen, and the flags as they were.
  abbrev pub Loops : List BusEvent → World → World → Bool → World → Type 0
  Loops bs w u t v =
      Ends watch bs w t v
      × (v.tmc.handle_read_status ≡ u.tmc.handle_read_status)
      × (v.gpib_addr ≡ u.gpib_addr)

  -- No status request waits, EOI is released, and so many bytes were taken.
  pub record IsReady (at : ℕ) (u : World) : Type 0 where
    pub not_pending : u.tmc.handle_read_status ≡ false
    pub eoi_low : u.gpib.lines.eoi ≡ false
    pub taken : u.usb.taken ≡ at

  -- The rest of the loop, after a byte.
  after_byte :
      (n dat at : ℕ) (eom t : Bool) (bs : List BusEvent) (w u v : World)
      → IsReady at u
      → Ends watch bs w t v
      → Apart steady u v
      → ((dat' at' : ℕ) (x : World)
          → IsReady at' x
          → Ends watch bs w t x
          → Ensures (Loops (bs ++ sent e n dat' at' eom) w x) (write_loop e n dat' eom t f x))
      → Ensures (Loops (bs ++ sent e n (e.out_bytes at) (at + 1) eom) w u) (
          bind
            ((if n == 0 then pure dat else endpoint_read e) v)
            (λ dat'. write_loop e n dat' eom t f))
  unfolding write_loop endpoint_read
  after_byte zero dat at eom t bs w u v r h a ih = (rw append-nil h, a.0, a.5)
  after_byte (suc n) dat at eom t bs w u v r h a ih =
      let x = record v { usb = record (v.usb) { taken = v.usb.taken + 1 } } in
      let run = write_loop e (suc n) (e.out_bytes v.usb.taken) eom t f x in
      rw (suc-positive n) (
        subst (λ k. Ensures (Loops (bs ++ sent e (suc n) (e.out_bytes k) (k + 1) eom) w u) run)
          (a.1 ∙ r.taken)
          (Ensures-weaken
            (Loops (bs ++ sent e (suc n) (e.out_bytes v.usb.taken) (v.usb.taken + 1) eom) w x)
            (Loops (bs ++ sent e (suc n) (e.out_bytes v.usb.taken) (v.usb.taken + 1) eom) w u) run
            (ih (e.out_bytes v.usb.taken) (v.usb.taken + 1) x
              (record { not_pending = a.0 ∙ r.not_pending; eoi_low = a.7 r.eoi_low; taken = refl })
              (Ends-apart watch bs w v t _ h))
            λ t' y k. (k.0, k.1 ∙ a.0, k.2 ∙ a.5)))

  pub loop_sent :
      (n dat at : ℕ) (eom t : Bool) (bs : List BusEvent) (w u : World)
      → IsReady at u
      → Ends watch bs w t u
      → Ensures (Loops (bs ++ sent e n dat at eom) w u) (write_loop e n dat eom t f u)
  unfolding write_loop
  loop_sent zero dat at eom t bs w u r h = (rw append-nil h, refl, refl)
  loop_sent (suc n) dat at eom true bs w u r h = (Ends-longer watch bs _ w u h, refl, refl)
  loop_sent (suc n) dat at eom false bs w u r h =
      let b = message dat (n == 0 && eom) in
      none_pending (Loops (bs ++ sent e (suc n) dat at eom) w u) u.tmc.handle_read_status false _ _
        u r.not_pending
        (Ensures-bind (Sends e steady watch keeps (b ∷ []) u)
          (Loops (bs ++ sent e (suc n) dat at eom) w u)
          (gpib_writedat_quick e dat (n == 0 && eom) f false u) _
          (writedat_sent e steady watch keeps dat (n == 0 && eom) false u r.eoi_low)
          λ t v k.
            subst
              (λ cs. Ensures (Loops cs w u) (
                bind ((if n == 0 then pure dat else endpoint_read e) v)
                  (λ dat'. write_loop e n dat' eom t f)))
              (append_assoc bs (b ∷ []) (sent e n (e.out_bytes at) (at + 1) eom))
              (after_byte n dat at eom t (bs ++ (b ∷ [])) w u v r
                (Ends-append watch bs (b ∷ []) w u v t (h.done refl) k.0) k.1
                λ dat' at' x r' h'. loop_sent n dat' at' eom t (bs ++ (b ∷ [])) w x r' h'))
