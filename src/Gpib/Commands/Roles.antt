-- ===== src/Gpib/Commands/Roles.antt =====
-- What each addressing sequence of gpib.c shows on the bus.
use usb_gpib.Base.{ℕ, Bool, true, false, ◌≡◌, refl, List, [], ◌∷◌, ◌++◌, append_assoc, subst}
use usb_gpib.State.{World, Env, BusEvent, command}
use usb_gpib.Exec.{M, bind, pure, unless, Ensures, Ensures-bind}
use usb_gpib.Gpib.Lines.{set_transaction, gpib_recover}
use usb_gpib.Gpib.Timeouts.{IsWatch}
use usb_gpib.Gpib.Sequence.{Ends, start, next, Ends-frame, Ends-once_more}
use usb_gpib.Gpib.Commands.{
  recover_if, gpib_tx, gpib_cmd_lag, gpib_cmd_tag, gpib_cmd_unl, gpib_cmd_unt, gpib_cmd_llo,
  gpib_cmd_gtl, gpib_cmd_get, gpib_cmd_sdc, gpib_local_lockout, gpib_goto_local, gpib_trigger,
  gpib_sdc, gpib_untalk_unlisten, gpib_make_talker, gpib_make_listener,
}
use usb_gpib.Gpib.Commands.Address.{address_bytes, tx_command, address-Ends}

-- The events of `gpib_gotoLocal`, `gpib_trigger` and `gpib_sdc`.
abbrev pub addressed : ℕ → ℕ → List BusEvent
addressed addr dat = address_bytes 0x20 addr ++ (command dat ∷ command 0x3f ∷ [])

module _ (e : Env) {f : M Bool} (watch : IsWatch f) where
  pub recover-Ends :
      (bs : List BusEvent) (w u : World) (t : Bool)
      → Ends watch bs w t u
      → Ensures (Ends watch bs w) (recover_if t u)
  unfolding recover_if gpib_recover
  recover-Ends bs w u true h =
      Ends-once_more watch bs w u _ h (rw append_assoc refl) (watch.frame u _ _ (h.cut refl).1)
  recover-Ends bs w u false h = h

  -- The last steps of a sequence: `gpib_recover` after a timeout, and the transaction flag.
  close-Ends :
      (bs : List BusEvent) (w u : World) (t : Bool)
      → Ends watch bs w t u
      → Ensures
          (Ends watch bs w)
          (bind (recover_if t u) (λ t' v. pure t' (set_transaction false v)))
  close-Ends bs w u t h =
      Ensures-bind (Ends watch bs w) (Ends watch bs w) (recover_if t u) _ (recover-Ends bs w u t h)
        λ t' v k. Ends-frame watch bs w v t' _ refl k

  pub lag :
      (addr : ℕ) (v : World)
      → Ensures (Ends watch (address_bytes 0x20 addr) v) (gpib_cmd_lag e addr f v)
  unfolding gpib_cmd_lag
  lag = address-Ends e watch 0x20

  pub tag :
      (addr : ℕ) (v : World)
      → Ensures (Ends watch (address_bytes 0x40 addr) v) (gpib_cmd_tag e addr f v)
  unfolding gpib_cmd_tag
  tag = address-Ends e watch 0x40

  -- `gpib_make_listener` sends UNT, the controller's talk address, UNL and the listen address of the
  -- device; or it reports a timeout, and what was sent is a proper beginning of that, followed by a
  -- recovery of the interface.
  pub make_listener-Ends :
      (addr : ℕ) (w : World)
      → Ensures
          (Ends watch (command 0x5f ∷ command 0x40 ∷ command 0x3f ∷ address_bytes 0x20 addr) w)
          (gpib_make_listener e addr f w)
  unfolding gpib_make_listener gpib_cmd_unt gpib_cmd_unl
  make_listener-Ends addr w =
      let Q = Ends watch (command 0x5f ∷ command 0x40 ∷ command 0x3f ∷ address_bytes 0x20 addr) w in
      next watch Q [] (command 0x5f ∷ []) w false _ (gpib_cmd_unt e f) _ (start watch w _ refl)
        (tx_command e watch 0x5f)
        λ t1 u1 h1.
          next watch Q _ (command 0x40 ∷ []) w t1 u1 (gpib_cmd_tag e 0 f) _ h1 (tag 0) λ t2 u2 h2.
            next watch Q _ (command 0x3f ∷ []) w t2 u2 (gpib_cmd_unl e f) _ h2
              (tx_command e watch 0x3f)
              λ t3 u3 h3.
                next watch Q _ (address_bytes 0x20 addr) w t3 u3 (gpib_cmd_lag e addr f) _ h3
                  (lag addr) λ t4 u4 h4. recover-Ends _ w u4 t4 h4

  -- `gpib_make_talker` sends UNL, the controller's listen address and the talk address of the device,
  -- or is cut short and recovers.
  pub make_talker-Ends :
      (addr : ℕ) (w : World)
      → Ensures
          (Ends watch (command 0x3f ∷ command 0x20 ∷ address_bytes 0x40 addr) w)
          (gpib_make_talker e addr f w)
  unfolding gpib_make_talker gpib_cmd_unl
  make_talker-Ends addr w =
      let Q = Ends watch (command 0x3f ∷ command 0x20 ∷ address_bytes 0x40 addr) w in
      next watch Q [] (command 0x3f ∷ []) w false _ (gpib_cmd_unl e f) _ (start watch w _ refl)
        (tx_command e watch 0x3f)
        λ t1 u1 h1.
          next watch Q _ (command 0x20 ∷ []) w t1 u1 (gpib_cmd_lag e 0 f) _ h1 (lag 0) λ t2 u2 h2.
            next watch Q _ (address_bytes 0x40 addr) w t2 u2 (gpib_cmd_tag e addr f) _ h2 (tag addr)
              λ t3 u3 h3. recover-Ends _ w _ t3 (Ends-frame watch _ w u3 t3 _ refl h3)

  -- `gpib_make_listener` sends UNT, the controller's talk address, UNL and the listen address of the device,
  -- and `gpib_make_talker` UNL, the controller's listen address and the talk address of the device; or
  -- either reports a timeout, and what was sent is a proper beginning of that, followed by a recovery of the
  -- interface.
  pub addressing-Ends :
      (addr : ℕ) (w : World)
      → Ensures
          (Ends watch (command 0x5f ∷ command 0x40 ∷ command 0x3f ∷ address_bytes 0x20 addr) w)
          (gpib_make_listener e addr f w)
        × Ensures
            (Ends watch (command 0x3f ∷ command 0x20 ∷ address_bytes 0x40 addr) w)
            (gpib_make_talker e addr f w)
  addressing-Ends addr w = (make_listener-Ends addr w, make_talker-Ends addr w)

  -- `gpib_untalk_unlisten` sends UNL and UNT, or is cut short and recovers.
  pub untalk_unlisten-Ends :
      (w : World)
      → Ensures (Ends watch (command 0x3f ∷ command 0x5f ∷ []) w) (gpib_untalk_unlisten e f w)
  unfolding gpib_untalk_unlisten gpib_cmd_unl gpib_cmd_unt
  untalk_unlisten-Ends w =
      let Q = Ends watch (command 0x3f ∷ command 0x5f ∷ []) w in
      next watch Q [] (command 0x3f ∷ []) w false w (gpib_cmd_unl e f) _ (start watch w w refl)
        (tx_command e watch 0x3f)
        λ t1 u1 h1.
          next watch Q _ (command 0x5f ∷ []) w t1 u1 (gpib_cmd_unt e f) _ h1
            (tx_command e watch 0x5f) λ t2 u2 h2. close-Ends _ w u2 t2 h2

  -- The listen address of the device, one command, UNL, and what the function does at the end.
  addressed-Ends :
      (addr dat : ℕ) (w u : World) (k : Bool → M Bool)
      → u.gpib.log ≡ w.gpib.log
      → ((t : Bool) (v : World)
          → Ends watch (addressed addr dat) w t v
          → Ensures (Ends watch (addressed addr dat) w) (k t v))
      → Ensures (Ends watch (addressed addr dat) w) (
          bind (gpib_cmd_lag e addr f u) (λ t1 u1.
            bind
              (unless t1 (gpib_tx e dat true f) u1)
              (λ t2 u2. bind (unless t2 (gpib_cmd_unl e f) u2) k)))
  unfolding gpib_cmd_unl
  addressed-Ends addr dat w u k same rest =
      let Q = Ends watch (addressed addr dat) w in
      next watch Q [] (address_bytes 0x20 addr) w false u (gpib_cmd_lag e addr f) _
        (start watch w u same) (lag addr)
        λ t1 u1 h1.
          next watch Q _ (command dat ∷ []) w t1 u1 (gpib_tx e dat true f) _ h1
            (tx_command e watch dat)
            λ t2 u2 h2.
              next watch Q _ (command 0x3f ∷ []) w t2 u2 (gpib_cmd_unl e f) k h2
                (tx_command e watch 0x3f)
                λ t3 u3 h3. rest t3 u3 (
                  subst (λ cs. Ends watch cs w t3 u3) (append_assoc (address_bytes 0x20 addr) _ _)
                    h3)

  -- `gpib_gotoLocal` sends the listen address of the device, GTL and UNL, or is cut short and recovers.
  goto_local-Ends :
      (addr : ℕ) (w : World)
      → Ensures (Ends watch (addressed addr 0x01) w) (gpib_goto_local e addr f w)
  unfolding gpib_goto_local gpib_cmd_gtl
  goto_local-Ends addr w = addressed-Ends addr 0x01 w w _ refl λ t v h. recover-Ends _ w v t h

  -- `gpib_trigger` sends the listen address of the device, GET and UNL, or is cut short and recovers.
  trigger-Ends :
      (addr : ℕ) (w : World)
      → Ensures (Ends watch (addressed addr 0x08) w) (gpib_trigger e addr f w)
  unfolding gpib_trigger gpib_cmd_get
  trigger-Ends addr w = addressed-Ends addr 0x08 w w _ refl λ t v h. recover-Ends _ w v t h

  -- `gpib_sdc` sends the listen address of the device, SDC and UNL, or is cut short and recovers.
  sdc-Ends :
      (addr : ℕ) (w : World) → Ensures (Ends watch (addressed addr 0x04) w) (gpib_sdc e addr f w)
  unfolding gpib_sdc gpib_cmd_sdc
  sdc-Ends addr w = addressed-Ends addr 0x04 w _ _ refl λ t v h. close-Ends _ w v t h

  -- `gpib_localLockout` sends LLO, or nothing and recovers.
  local_lockout-Ends :
      (w : World) → Ensures (Ends watch (command 0x11 ∷ []) w) (gpib_local_lockout e f w)
  unfolding gpib_local_lockout gpib_cmd_llo
  local_lockout-Ends w =
      Ensures-bind (Ends watch (command 0x11 ∷ []) w) (Ends watch (command 0x11 ∷ []) w)
        (gpib_cmd_llo e f w) _ (tx_command e watch 0x11 w) λ t v h. recover-Ends _ w v t h

  -- Each of the other sequences shows all of its commands, or a proper beginning of them and a
  -- recovery: UNL and UNT; the listen address of the device, one of GTL, GET and SDC, and UNL; or LLO.
  pub sequences-Ends :
      (addr : ℕ) (w : World)
      → Ensures (Ends watch (command 0x3f ∷ command 0x5f ∷ []) w) (gpib_untalk_unlisten e f w)
        × Ensures (Ends watch (addressed addr 0x01) w) (gpib_goto_local e addr f w)
        × Ensures (Ends watch (addressed addr 0x08) w) (gpib_trigger e addr f w)
        × Ensures (Ends watch (addressed addr 0x04) w) (gpib_sdc e addr f w)
        × Ensures (Ends watch (command 0x11 ∷ []) w) (gpib_local_lockout e f w)
  sequences-Ends addr w = (
    untalk_unlisten-Ends w,
    goto_local-Ends addr w,
    trigger-Ends addr w,
    sdc-Ends addr w,
    local_lockout-Ends w,
  )
