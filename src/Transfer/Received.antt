-- ===== src/Transfer/Received.antt =====
-- What `GetNextMessage` gives back.
use usb_gpib.Base.{
  ℕ, zero, suc, Bool, true, false, not, ◌≡◌, refl, ◌⊎◌, inl, inr, List, ◌∷◌, ◌≤◌, ◌&&◌, ◌||◌,
  length, if◌then◌else◌, arith,
}
use usb_gpib.State.{World, Env, remote}
use usb_gpib.Exec.{M, pure, skip, when, ◌>>◌, Ensures, Ensures-bind}
use usb_gpib.Gpib.Lines.{on_lines, set_led, gpib_ren, observe}
use usb_gpib.Gpib.Commands.{gpib_make_talker, gpib_untalk_unlisten}
use usb_gpib.Gpib.Commands.Apart.{make_talker-Keeps, untalk_unlisten-Keeps}
use usb_gpib.Gpib.Handshake.{gpib_readdat_quick}
use usb_gpib.Gpib.Handshake.Apart.{
  steady, Apart, Keeps, Keeps-if, Keeps-when, Keeps-bind, Apart-refl, readdat-Keeps,
}
use usb_gpib.Transfer.{read_loop, get_next_message}

module _ (e : Env) (f : M Bool) (keeps : Keeps steady f) where
  -- The bytes fit, and the loop ends with EOI, with a timeout or with a full buffer.
  abbrev Fills : ℕ → List ℕ × Bool × Bool → Type 0
  Fills n r = (length r.0 ≤ n) × (((r.1 || r.2) ≡ true) ⊎ (length r.0 ≡ n))

  one_more : (n c : ℕ) (r : List ℕ × Bool × Bool) → Fills n r → Fills (suc n) (c ∷ r.0, r.1, r.2)
  one_more n c r h = ground arith

  loop-Fills :
      (n : ℕ) (eoi t : Bool) (w : World) → Ensures (λ r u. Fills n r) (read_loop e n eoi t f w)
  unfolding read_loop
  loop-Fills zero eoi t w = (omega arith, inr refl)
  loop-Fills (suc n) true t w = (omega arith, inl refl)
  loop-Fills (suc n) false true w = (omega arith, inl refl)
  loop-Fills (suc n) false false w =
      Ensures-bind (λ r u. Apart steady w u) (λ r u. Fills (suc n) r)
        (gpib_readdat_quick e f false w) _ (readdat-Keeps steady e f keeps false w)
        λ r u _.
          Ensures-bind (λ q v. Fills n q) (λ q v. Fills (suc n) q) (read_loop e n r.1 r.2 f u) _
            (loop-Fills n r.1 r.2 u) λ q v h. one_more n r.0 q h

  -- `GetNextMessage` gives back at most as many bytes as there is room for, and says that more follow only
  -- where it has filled the room.
  pub get_next_message-length :
      (maxlen : ℕ) (first : Bool) (w : World)
      → Ensures
          (λ r u. (length r.0 ≤ maxlen) × ((r.1 ≡ true) ⊎ (length r.0 ≡ maxlen)))
          (get_next_message e maxlen first f w)
  unfolding get_next_message gpib_ren
  get_next_message-length maxlen first w =
      let v0 =
        on_lines (set_led false)
          (observe (remote true) (on_lines (λ l. record l { ren = true }) w)) in
      Ensures-bind (λ t u. Apart steady v0 u)
        (λ r u. (length r.0 ≤ maxlen) × ((r.1 ≡ true) ⊎ (length r.0 ≡ maxlen)))
        ((if first then gpib_make_talker e w.gpib_addr f else pure false) v0) _
        (Keeps-if steady first (gpib_make_talker e w.gpib_addr f) (pure false)
          (make_talker-Keeps steady e f keeps w.gpib_addr) (λ v. Apart-refl steady v) v0)
        λ t u _.
          Ensures-bind (λ r v. Fills maxlen r)
            (λ r u. (length r.0 ≤ maxlen) × ((r.1 ≡ true) ⊎ (length r.0 ≡ maxlen)))
            (read_loop e maxlen false t f u) _ (loop-Fills maxlen false t u)
            λ r v h.
              Ensures-bind (λ _ x. Apart steady v x)
                (λ r u. (length r.0 ≤ maxlen) × ((r.1 ≡ true) ⊎ (length r.0 ≡ maxlen)))
                (when (r.1 && not r.2) (gpib_untalk_unlisten e f >> skip) v) _
                (Keeps-when steady (r.1 && not r.2) (gpib_untalk_unlisten e f >> skip)
                  (Keeps-bind steady (gpib_untalk_unlisten e f) _
                    (untalk_unlisten-Keeps steady e f keeps) λ _ x. Apart-refl steady x)
                  v)
                λ _ x _. h
