-- ===== src/Transfer/Carried/Whole.antt =====
-- A whole call of `ProcessSentMessage` while any control requests arrive.
use usb_gpib.Base.{
  ℕ, zero, suc, Bool, true, false, not, ◌≡◌, refl, ◌∙◌, subst, List, [], ◌∷◌, ◌++◌, append_assoc,
  append-nil, ◌&&◌, ◌+◌, ◌==◌, if◌then◌else◌,
}
use usb_gpib.State.{World, Env, remote}
use usb_gpib.Exec.{pure, skip, bind, when, ◌>>◌, Ensures, Ensures-bind, Ensures-weaken}
use usb_gpib.Endpoint.{endpoint_read}
use usb_gpib.Gpib.Lines.{on_lines, set_led, observe, gpib_ren}
use usb_gpib.Gpib.Messages.{messages-append, SameMessages}
use usb_gpib.Gpib.Handshake.{gpib_writedat_quick}
use usb_gpib.Gpib.Handshake.Apart.{Apart, Apart-refl, Apart-trans}
use usb_gpib.Gpib.Handshake.Agree.{busy}
use usb_gpib.Gpib.Commands.{gpib_make_listener, gpib_untalk_unlisten}
use usb_gpib.Control.Watch.{IsAborted}
use usb_gpib.Control.Deferred.{deferring}
use usb_gpib.Transfer.{answer_pending, write_loop, send_to_device}
use usb_gpib.Transfer.Sent.{suc-positive}
use usb_gpib.Transfer.Carried.{
  host_bytes, Carries, Carries-longer, Carries-start, Carries-after, Aside, Ready, Ready-Aside,
  listener-Aside, free-Aside, pending-Aside, byte_carried,
}

Carries-done :
    (ps : List (ℕ × Bool)) (w u v : World)
    → SameMessages u v
    → Carries ps w false u
    → Carries ps w false v
Carries-done ps w u v same h = (λ y. same ∙ h.0 refl, λ y. cc)

Aside-refl : (e : Env) (w : World) → Aside e w w
Aside-refl e w = (refl, Apart-refl busy w)

module _ (e : Env) where
  -- A status request that waits is answered first.
  first_answered :
      (p : Bool) (w : World)
      → Ensures (λ _ u. Aside e w u) ((if p then answer_pending e (deferring e) else pure false) w)
  first_answered true w =
      Ensures-weaken (λ t u. Aside e w u × (t ≡ true → IsAborted u)) (λ _ u. Aside e w u)
        (answer_pending e (deferring e) w) (pending-Aside e w) λ t u h. h.0
  first_answered false w = Aside-refl e w

  -- The rest of the loop, after a byte.
  after_byte :
      (n dat at : ℕ) (eom t : Bool) (ps : List (ℕ × Bool)) (w v : World)
      → Ready e at v
      → Carries ps w t v
      → ((dat' at' : ℕ) (x : World)
          → Ready e at' x
          → Carries ps w t x
          → Ensures
              (Carries (ps ++ host_bytes e n dat' at' eom) w)
              (write_loop e n dat' eom t (deferring e) x))
      → Ensures (Carries (ps ++ host_bytes e n (e.out_bytes at) (at + 1) eom) w) (
          bind
            ((if n == 0 then pure dat else endpoint_read e) v)
            (λ dat'. write_loop e n dat' eom t (deferring e)))
  unfolding write_loop endpoint_read
  after_byte zero dat at eom t ps w v r h ih = rw append-nil h
  after_byte (suc n) dat at eom t ps w v r h ih =
      let x = record v { usb = record (v.usb) { taken = v.usb.taken + 1 } } in
      rw (suc-positive n) (
        subst
          (λ k.
            Ensures (Carries (ps ++ host_bytes e (suc n) (e.out_bytes k) (k + 1) eom) w)
              (write_loop e (suc n) (e.out_bytes v.usb.taken) eom t (deferring e) x))
          r.1
          (ih (e.out_bytes v.usb.taken) (v.usb.taken + 1) x (r.0, refl)
            (Carries-after ps w v x t refl (λ y. y) h)))

  loop_carried :
      (n dat at : ℕ) (eom t : Bool) (ps : List (ℕ × Bool)) (w u : World)
      → Ready e at u
      → Carries ps w t u
      → Ensures
          (Carries (ps ++ host_bytes e n dat at eom) w)
          (write_loop e n dat eom t (deferring e) u)
  unfolding write_loop
  loop_carried zero dat at eom t ps w u r h = rw append-nil h
  loop_carried (suc n) dat at eom true ps w u r h =
      Carries-longer ps (host_bytes e (suc n) dat at eom) w u h
  loop_carried (suc n) dat at eom false ps w u r h =
      let p : ℕ × Bool = (dat, n == 0 && eom) in
      let Q = Carries (ps ++ host_bytes e (suc n) dat at eom) w in
      Ensures-bind (λ _ x. Aside e u x) Q
        ((if u.tmc.handle_read_status then answer_pending e (deferring e) else pure false) u) _
        (first_answered u.tmc.handle_read_status u)
        λ _ x a.
          Ensures-bind (λ t v. Carries (ps ++ (p ∷ [])) w t v × Apart busy x v) Q
            (gpib_writedat_quick e dat (n == 0 && eom) (deferring e) false x) _
            (byte_carried e dat (n == 0 && eom) ps w x (a.1.7 r.0) (Carries-done ps w u x a.0 h))
            λ t v k.
              subst
                (λ qs. Ensures (Carries qs w) (
                  bind ((if n == 0 then pure dat else endpoint_read e) v)
                    (λ dat'. write_loop e n dat' eom t (deferring e))))
                (append_assoc ps (p ∷ []) (host_bytes e n (e.out_bytes at) (at + 1) eom))
                (after_byte n dat at eom t (ps ++ (p ∷ [])) w v
                  (Ready-Aside e at x v (Ready-Aside e at u x r a.1) k.1) k.0
                  λ dat' at' y r' h'. loop_carried n dat' at' eom t (ps ++ (p ∷ [])) w y r' h')

  -- The device is addressed in the first transfer of a message.
  addressed :
      (first : Bool) (addr : ℕ) (w : World)
      → Ensures
          (λ t u. Aside e w u × (t ≡ true → IsAborted u))
          ((if first then gpib_make_listener e addr (deferring e) else pure false) w)
  addressed true addr w = listener-Aside e addr w
  addressed false addr w = (Aside-refl e w, λ x. cc)

  -- A status request that came meanwhile.
  then_answered :
      (p t : Bool) (w : World)
      → (t ≡ true → IsAborted w)
      → Ensures
          (λ t' u. Aside e w u × (t' ≡ true → IsAborted u))
          ((if p && not t then answer_pending e (deferring e) else pure t) w)
  then_answered true true w x = (Aside-refl e w, x)
  then_answered true false w x = pending-Aside e w
  then_answered false t w x = (Aside-refl e w, x)

  -- The bus is freed after the last transfer.
  freed :
      (last t : Bool) (ps : List (ℕ × Bool)) (w u : World)
      → Carries ps w t u
      → Ensures
          (λ _ v. Carries ps w t v)
          (when (last && not t) (gpib_untalk_unlisten e (deferring e) >> skip) u)
  freed true true ps w u h = h
  freed false true ps w u h = h
  freed false false ps w u h = h
  freed true false ps w u h =
      Ensures-bind (λ t v. Aside e u v) (λ _ v. Carries ps w false v)
        (gpib_untalk_unlisten e (deferring e) u) _ (free-Aside e u)
        λ t v a. Carries-done ps w u v a.0 h

  pub device_carried :
      (len dat at : ℕ) (first last eom : Bool) (w : World)
      → Ready e at w
      → Ensures
          (Carries (host_bytes e len dat at eom) w)
          (send_to_device e len dat first last eom (deferring e) w)
  unfolding send_to_device gpib_ren
  device_carried len dat at first last eom w r =
      let ps = host_bytes e len dat at eom in
      let v0 =
        on_lines (set_led false)
          (observe (remote true) (on_lines (λ l. record l { ren = true }) w)) in
      let ren : SameMessages w v0 =
        messages-append w.gpib.log (remote true ∷ []) ∙ rw append-nil refl in
      Ensures-bind (λ t u. Aside e v0 u × (t ≡ true → IsAborted u)) (Carries ps w)
        ((if first then gpib_make_listener e w.gpib_addr (deferring e) else pure false) v0) _
        (addressed first w.gpib_addr v0)
        λ t1 u a.
          Ensures-bind (λ t v. Aside e u v × (t ≡ true → IsAborted v)) (Carries ps w)
            ((if u.tmc.handle_read_status && not t1
                then answer_pending e (deferring e)
                else pure t1)
              u)
            _ (then_answered u.tmc.handle_read_status t1 u a.1)
            λ t2 v b.
              Ensures-bind (Carries ps w) (Carries ps w)
                (write_loop e len dat eom t2 (deferring e) v) _
                (loop_carried len dat at eom t2 [] w v
                  (Ready-Aside e at v0 v r (Apart-trans busy v0 u v a.0.1 b.0.1))
                  (Carries-start w v t2 (b.0.0 ∙ (a.0.0 ∙ ren)) b.1))
                λ t3 x c.
                  Ensures-bind (λ _ y. Carries ps w t3 y) (Carries ps w)
                    (when (last && not t3) (gpib_untalk_unlisten e (deferring e) >> skip) x) _
                    (freed last t3 ps w x c)
                    λ _ y d. Carries-after ps w y (on_lines (set_led true) y) t3 refl (λ z. z) d
