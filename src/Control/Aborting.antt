-- ===== src/Control/Aborting.antt =====
-- `tmc_gpib_write_timedout` says `true` before long where the host asks for an abort until it is met.
use usb_gpib.Base.{
  ℕ, zero, suc, Bool, true, false, ◌≡◌, ◌≢◌, refl, ◌⊎◌, inl, inr, Option, some, none, ◌+◌, ◌-◌, ◌≤◌,
  ◌<◌, ◌||◌, leb, if◌then◌else◌, Bool-cases, arith,
}
use usb_gpib.State.{World, Env, Request}
use usb_gpib.Exec.{Returns, Returns-bind}
use usb_gpib.Endpoint.{select, control_ep, out_ep, in_ep}
use usb_gpib.Gpib.Timeouts.{IsFinite}
use usb_gpib.Gpib.Handshake.Paced.{Coming}
use usb_gpib.Control.{
  class_endpoint, initiate_abort_bulk_out, check_abort_bulk_out, initiate_abort_bulk_in,
  check_abort_bulk_in, initiate_clear, check_clear, get_capabilities, indicator_pulse, ren_control,
  local_lockout, go_to_local, dispatch_request, control_request, is_addressed, with_request,
  usb_task, tmc_timedout,
}
use usb_gpib.Control.Watch.{IsOther, IsAborted}

-- InitiateAbortBulkOut or InitiateAbortBulkIn, at one of the bulk endpoints.
abbrev pub IsAbort : Option Request → Type 0
IsAbort none = ⊥
IsAbort (some r) =
    ((r.request ≡ 0x01) ⊎ (r.request ≡ 0x03))
    × (r.request_type ≡ class_endpoint)
    × ((r.index ≡ out_ep) ⊎ (r.index ≡ in_ep))

-- How many rounds a wait may go on, with so many moments before the abort and so many accesses to the pins
-- between two timer interrupts.
abbrev pub longest_wait : ℕ → ℕ → ℕ
longest_wait zero pace = 0
longest_wait (suc n) pace = longest_wait n pace + suc pace

longest_wait-le : (m n pace : ℕ) → m ≤ n → longest_wait m pace ≤ longest_wait n pace
longest_wait-le zero n pace le = omega arith
longest_wait-le (suc m) zero pace le = absurd (omega (arith, le))
longest_wait-le (suc m) (suc n) pace le =
    omega (arith, longest_wait-le m n pace (omega (arith, le)))

module _ (e : Env) where
  dispatch-Counts :
      (r : Request) (w : World)
      → r.request ≢ 0x80
      → Returns (λ _ u. (u.now ≡ w.now) × (IsAborted w → IsAborted u)) (dispatch_request e r w)
  unfolding dispatch_request initiate_abort_bulk_out check_abort_bulk_out initiate_abort_bulk_in
      check_abort_bulk_in initiate_clear check_clear get_capabilities indicator_pulse ren_control
      local_lockout go_to_local
  dispatch-Counts r w other = ground arith

  abort-met :
      (r : Request) (w : World)
      → IsAbort (some r)
      → Returns (λ _ u. (u.now ≡ w.now) × IsAborted u) (control_request e r w)
  unfolding control_request dispatch_request initiate_abort_bulk_out initiate_abort_bulk_in
  abort-met r w (inl out, type, inl ep) = ground (arith, out, type, ep)
  abort-met r w (inl out, type, inr ep) = ground (arith, out, type, ep)
  abort-met r w (inr out, type, inl ep) = ground (arith, out, type, ep)
  abort-met r w (inr out, type, inr ep) = ground (arith, out, type, ep)

  control-Counts :
      (r : Request) (w : World)
      → r.request ≢ 0x80
      → Returns (λ _ u. (u.now ≡ w.now) × (IsAborted w → IsAborted u)) (control_request e r w)
  unfolding control_request
  control-Counts r w other = elim (Bool-cases (is_addressed r)) [
    | inl here ↦ rw here (dispatch-Counts r w other)
    | inr away ↦ rw away (refl, λ a. a)
  ]

  with_request-Counts :
      (r : Option Request) (w : World)
      → IsOther r
      → Returns (λ _ u. (u.now ≡ w.now) × (IsAborted w → IsAborted u)) (with_request e r w)
  with_request-Counts none w other = (refl, λ a. a)
  with_request-Counts (some r) w other =
      Returns-bind (λ _ u. (u.now ≡ w.now) × (IsAborted w → IsAborted u))
        (λ _ u. (u.now ≡ w.now) × (IsAborted w → IsAborted u))
        (control_request e r (select control_ep w)) _ (control-Counts r (select control_ep w) other)
        λ _ u h. h

  with_request-met :
      (r : Option Request) (w : World)
      → IsAbort r
      → Returns (λ _ u. (u.now ≡ w.now) × IsAborted u) (with_request e r w)
  with_request-met none w abort = absurd abort
  with_request-met (some r) w abort =
      Returns-bind (λ _ u. (u.now ≡ w.now) × IsAborted u) (λ _ u. (u.now ≡ w.now) × IsAborted u)
        (control_request e r (select control_ep w)) _ (abort-met r (select control_ep w) abort)
        λ _ u h. h

  module _ (others : (n : ℕ) → IsOther (e.control n)) (last pace : ℕ)
      (aborts : (n : ℕ) → last ≤ n → IsAbort (e.control n)) where
    abbrev remaining : Bool → ℕ → ℕ
    remaining aborted now = if aborted then 0 else longest_wait (last + 1 - now) pace

    abbrev time_left : World → ℕ
    time_left w = remaining (w.tmc.out_reset || w.tmc.in_reset) w.now

    abbrev Sooner : World → Bool → World → Type 0
    Sooner w t u = time_left u ≤ time_left w × (t ≡ false → time_left u + pace < time_left w)

    none_left : (w u : World) → IsAborted u → Sooner w (u.tmc.out_reset || u.tmc.in_reset) u
    none_left w u a = rw a (omega arith, λ x. cc)

    one_less :
        (w u : World)
        → w.now < last
        → u.now ≡ w.now + 1
        → (IsAborted w → IsAborted u)
        → Sooner w (u.tmc.out_reset || u.tmc.in_reset) u
    one_less w u early now stays =
        by_flags (w.tmc.out_reset || w.tmc.in_reset) (u.tmc.out_reset || u.tmc.in_reset) stays
      where
        step :
            longest_wait (last + 1 - u.now) pace + suc pace ≡ longest_wait (last + 1 - w.now) pace
        step =
            let more : last + 1 - w.now ≡ suc (last + 1 - u.now) = omega (arith, early, now) in
            rw more refl

        by_flags :
            (a b : Bool)
            → (a ≡ true → b ≡ true)
            → remaining b u.now ≤ remaining a w.now
              × (b ≡ false → remaining b u.now + pace < remaining a w.now)
        by_flags a true h = (omega arith, λ x. cc)
        by_flags true false h = let x : false ≡ true = h refl in cc
        by_flags false false h = (omega (arith, step), λ _. omega (arith, step))

    pub tmc_timedout-IsFinite : IsFinite (tmc_timedout e)
    unfolding tmc_timedout usb_task
    tmc_timedout-IsFinite = record {
      left = time_left;
      pace = pace;
      call = λ w.
          let v = record w { now = w.now + 1 } in
          elim (Bool-cases (leb last w.now)) [
            | inl late ↦
                Returns-bind (λ _ u. (u.now ≡ w.now + 1) × IsAborted u) (Sooner w)
                  (with_request e (e.control w.now) v) _
                  (with_request-met (e.control w.now) v (aborts w.now (ground (arith, late))))
                  λ _ u h. none_left w u h.1
            | inr early ↦
                Returns-bind (λ _ u. (u.now ≡ w.now + 1) × (IsAborted w → IsAborted u)) (Sooner w)
                  (with_request e (e.control w.now) v) _
                  (with_request-Counts (e.control w.now) v (others w.now))
                  λ _ u h. one_less w u (ground (arith, early)) h.0 h.1
          ];
      frame = λ w g n later. by_flag (w.tmc.out_reset || w.tmc.in_reset) w.now n later;
    }
      where
        by_flag : (a : Bool) (m n : ℕ) → m ≤ n → remaining a n ≤ remaining a m
        by_flag true m n le = omega arith
        by_flag false m n le =
            longest_wait-le (last + 1 - n) (last + 1 - m) pace (omega (arith, le))

    -- However late it is called, a wait is followed for long enough.
    pub tmc_timedout-followed :
        longest_wait (last + 1) pace + pace < e.polls
        → (w : World) → tmc_timedout-IsFinite.left w + tmc_timedout-IsFinite.pace < e.polls
    unfolding tmc_timedout-IsFinite
    tmc_timedout-followed fits w = omega (arith, fits, by_flag (w.tmc.out_reset || w.tmc.in_reset))
      where
        by_flag : (a : Bool) → remaining a w.now ≤ longest_wait (last + 1) pace
        by_flag true = omega arith
        by_flag false = longest_wait-le (last + 1 - w.now) (last + 1) pace (omega arith)

    pub tmc_timedout-beat :
        ((n : ℕ) → Coming e pace n) → (n : ℕ) → Coming e tmc_timedout-IsFinite.pace n
    unfolding tmc_timedout-IsFinite
    tmc_timedout-beat beat = beat
