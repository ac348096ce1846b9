-- ===== src/Device/Identify/Kept.antt =====
-- The parts of `identifyGpibDevice` that leave the serial number alone.
use usb_gpib.Base.{
  ℕ, zero, suc, Bool, true, false, not, List, [], ◌∷◌, ◌&&◌, ◌||◌, ◌==◌, length, ltb,
}
use usb_gpib.State.{Env}
use usb_gpib.Exec.{M, pure, skip, ◌>>◌}
use usb_gpib.Gpib.Timeouts.{timeout_start, is_timedout, main_countdown}
use usb_gpib.Gpib.Handshake.Apart.{
  same, Apart-refl, Keeps, Keeps-bind, Keeps-pure, Keeps-when, countdown-Keeps, writedat-Keeps,
  readdat-Keeps,
}
use usb_gpib.Gpib.Commands.{gpib_make_listener, gpib_untalk_unlisten, gpib_writedat, gpib_readdat}
use usb_gpib.Gpib.Commands.Apart.{make_listener-Keeps, untalk_unlisten-Keeps}
use usb_gpib.Device.Identify.{
  max_serial, idn_store, idn_prev, id_store, idn_rounds, id_rounds, send_query, while_time, ask,
}

module _ (e : Env) where
  pub timed : Keeps same is_timedout
  timed = countdown-Keeps same main_countdown

  pub start-Keeps : (t : ℕ) → Keeps same (timeout_start t)
  unfolding timeout_start
  start-Keeps t w = Apart-refl same w

  write-Keeps : (c : ℕ) (eoi : Bool) → Keeps same (gpib_writedat e c eoi is_timedout)
  unfolding gpib_writedat
  write-Keeps c eoi = writedat-Keeps same e is_timedout timed c eoi true

  send-Keeps : (query : List ℕ) → Keeps same (send_query e query)
  unfolding send_query
  send-Keeps [] w = Apart-refl same w
  send-Keeps (c ∷ cs) w =
      Keeps-bind same (while_time e (gpib_writedat e c (length cs == 0) is_timedout >> skip)) _
        (λ v.
          Keeps-when same (not (v.timeouts.main == 0))
            (gpib_writedat e c (length cs == 0) is_timedout >> skip)
            (Keeps-bind same (gpib_writedat e c (length cs == 0) is_timedout) _
              (write-Keeps c (length cs == 0)) λ _ u. Apart-refl same u)
            v)
        (λ _. send-Keeps cs) w

  pub ask-Keeps : (query : List ℕ) → Keeps same (ask e query)
  unfolding ask
  ask-Keeps query w =
      Keeps-bind same (timeout_start 100000) _ (start-Keeps 100000)
        (λ _ v.
          Keeps-bind same (gpib_make_listener e v.gpib_addr is_timedout) _
            (make_listener-Keeps same e is_timedout timed v.gpib_addr)
            (λ t. Keeps-bind same (send_query e query) _ (send-Keeps query) λ _.
              Keeps-bind same (gpib_untalk_unlisten e is_timedout) (λ _. skip)
                (untalk_unlisten-Keeps same e is_timedout timed) λ t' u. Apart-refl same u)
            v)
        w

  read-Keeps : Keeps same (gpib_readdat e is_timedout)
  unfolding gpib_readdat
  read-Keeps = readdat-Keeps same e is_timedout timed true

  again-Keeps :
      (again : Bool) (m : M (List ℕ × Bool)) (r : List ℕ × Bool)
      → Keeps same m
      → Keeps same (λ u. elim again as (λ _. M (List ℕ × Bool)) [ true ↦ m | false ↦ pure r ] u)
  again-Keeps true m r h = h
  again-Keeps false m r h = Keeps-pure same r

  pub idn_rounds-Keeps :
      (n prev : ℕ) (cs : List ℕ) (comma : Bool) → Keeps same (idn_rounds e n prev cs comma)
  unfolding idn_rounds
  idn_rounds-Keeps zero prev cs comma w = tt
  idn_rounds-Keeps (suc n) prev cs comma w =
      Keeps-bind same (gpib_readdat e is_timedout) _ read-Keeps
        (λ r.
          again-Keeps (ltb (length (idn_store prev r.0 cs)) max_serial && (not r.2 && not r.1)) _ _
            (idn_rounds-Keeps n (idn_prev r.0) (idn_store prev r.0 cs) (comma || r.0 == b',')))
        w

  pub id_rounds-Keeps : (n : ℕ) (cs : List ℕ) (comma : Bool) → Keeps same (id_rounds e n cs comma)
  unfolding id_rounds
  id_rounds-Keeps zero cs comma w = tt
  id_rounds-Keeps (suc n) cs comma w =
      Keeps-bind same (gpib_readdat e is_timedout) _ read-Keeps
        (λ r.
          again-Keeps
            (ltb (length (id_store r.0 cs)) max_serial
              && (not r.2 && not r.1 && not (r.0 == 13) && not (r.0 == 10)))
            _ _ (id_rounds-Keeps n (id_store r.0 cs) (comma || r.0 == b',')))
        w
