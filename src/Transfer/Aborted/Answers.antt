-- ===== src/Transfer/Aborted/Answers.antt =====
-- What the host reads on the control endpoint for the split requests.
use usb_gpib.Base.{
  ℕ, Bool, false, ◌≡◌, ◌≢◌, refl, subst, List, [], ◌∷◌, ◌++◌, append_assoc, ◌/◌, ◌%◌, ◌==◌, ◌||◌,
  arith,
}
use usb_gpib.State.{World, Tmc, UsbEvent, write, clear_setup, clear_in, status_stage}
use usb_gpib.Control.{
  initiate_clear, check_clear, initiate_abort_bulk_out, check_abort_bulk_out,
  initiate_abort_bulk_in, check_abort_bulk_in, check_status, abort_status, begin,
  req_initiate_clear, req_initiate_abort_bulk_out, req_initiate_abort_bulk_in,
}

-- Bytes in a packet of an endpoint.
abbrev written : ℕ → List ℕ → List UsbEvent
written ep [] = clear_in ep ∷ status_stage ∷ []
written ep (b ∷ bs) = write ep b ∷ written ep bs

-- The answer of one packet on an endpoint.
abbrev pub packet : ℕ → List ℕ → List UsbEvent
packet ep bytes = clear_setup ∷ written ep bytes

-- The answer to a check of an abort: the status and the length of the transfer, in four bytes.
abbrev pub abort_report : ℕ → World → List ℕ
abort_report status u =
    let n = u.tmc.last_transfer_length in
    status ∷ 0 ∷ 0 ∷ 0 ∷ n % 256 ∷ n / 256 % 256 ∷ n / 65536 % 256 ∷ n / 65536 / 256 % 256 ∷ []

abbrev pub clear_report : ℕ → World → List ℕ
clear_report status u = status ∷ 0 ∷ []

-- The host is answered with these bytes.
abbrev pub Tells : (World → World) → List ℕ → World → Type 0
Tells f bytes w = (f w).usb.events ≡ w.usb.events ++ packet w.usb.selected bytes

-- That, and the request in progress stays.
abbrev pub Refuses : (World → World) → List ℕ → World → Type 0
Refuses f bytes w = Tells f bytes w × ((f w).tmc.request_in_progress ≡ w.tmc.request_in_progress)

begin_tag : (status req : ℕ) (t : Tmc) → (begin status req t).transfer_tag ≡ t.transfer_tag
begin_tag status req t = ground arith

pub abort_out-Tells :
    (value : ℕ) (w : World)
    → Tells (initiate_abort_bulk_out value) (abort_status value w.tmc ∷ w.tmc.transfer_tag ∷ []) w
unfolding initiate_abort_bulk_out
abort_out-Tells value w =
    simp (append_assoc, begin_tag (abort_status value w.tmc) req_initiate_abort_bulk_out w.tmc)

pub abort_in-Tells :
    (value : ℕ) (w : World)
    → Tells (initiate_abort_bulk_in value) (abort_status value w.tmc ∷ w.tmc.transfer_tag ∷ []) w
unfolding initiate_abort_bulk_in
abort_in-Tells value w =
    simp (append_assoc, begin_tag (abort_status value w.tmc) req_initiate_abort_bulk_in w.tmc)

pub check_out-Tells :
    (w : World)
    → Tells check_abort_bulk_out
        (abort_report (check_status req_initiate_abort_bulk_out w.tmc.out_reset w.tmc) w)
        w
unfolding check_abort_bulk_out
check_out-Tells w = simp append_assoc

pub check_in-Tells :
    (w : World)
    → Tells check_abort_bulk_in
        (abort_report (check_status req_initiate_abort_bulk_in w.tmc.in_reset w.tmc) w)
        w
unfolding check_abort_bulk_in
check_in-Tells w = simp append_assoc

pub check_clear-Tells :
    (w : World)
    → Tells check_clear
        (clear_report
          (check_status req_initiate_clear
            (w.tmc.in_reset || w.tmc.out_reset || w.tmc.handle_sdc)
            w.tmc)
          w)
        w
unfolding check_clear
check_clear-Tells w = simp append_assoc

pub clear-Tells : (w : World) → w.tmc.request_in_progress ≡ 0 → Tells initiate_clear (0x01 ∷ []) w
unfolding initiate_clear
clear-Tells w idle = rw idle (simp append_assoc)

-- Where a split request is in progress, the three requests are refused: a clear with two status bytes.
pub record IsRefused (other : ℕ) (w : World) : Type 0 where
  pub clear : Refuses initiate_clear (0x83 ∷ 0x01 ∷ []) w
  pub abort_out : Refuses (initiate_abort_bulk_out other) (0x83 ∷ w.tmc.transfer_tag ∷ []) w
  pub abort_in : Refuses (initiate_abort_bulk_in other) (0x83 ∷ w.tmc.transfer_tag ∷ []) w

-- Where none is in progress, an abort with another tag is refused, and so are the three checks.
pub record IsMissing (other : ℕ) (w : World) : Type 0 where
  pub abort_out : Refuses (initiate_abort_bulk_out other) (0x81 ∷ w.tmc.transfer_tag ∷ []) w
  pub abort_in : Refuses (initiate_abort_bulk_in other) (0x81 ∷ w.tmc.transfer_tag ∷ []) w
  pub check_out : Refuses check_abort_bulk_out (abort_report 0x82 w) w
  pub check_in : Refuses check_abort_bulk_in (abort_report 0x82 w) w
  pub check_cleared : Refuses check_clear (clear_report 0x82 w) w

-- A test on numbers that differ.
differs : (n m : ℕ) → n ≢ m → (n == m) ≡ false
differs n m h = ground (arith, h)

module _ (other : ℕ) (w : World) where
  busy_status : w.tmc.request_in_progress ≢ 0 → abort_status other w.tmc ≡ 0x83
  busy_status busy = ground (arith, busy)

  tag_status :
      w.tmc.request_in_progress ≡ 0 → other ≢ w.tmc.transfer_tag → abort_status other w.tmc ≡ 0x81
  tag_status idle tag = ground (arith, idle, tag)

  none_status :
      (req : ℕ) (busy : Bool)
      → w.tmc.request_in_progress ≡ 0
      → req ≢ 0
      → check_status req busy w.tmc ≡ 0x82
  none_status req busy idle some_req = ground (arith, idle, some_req)

  clear_refused : w.tmc.request_in_progress ≢ 0 → Refuses initiate_clear (0x83 ∷ 0x01 ∷ []) w
  unfolding initiate_clear
  clear_refused busy = rw (differs w.tmc.request_in_progress 0 busy) (simp append_assoc, refl)

  -- An abort that is refused with this status.
  out_refused :
      (status : ℕ)
      → abort_status other w.tmc ≡ status
      → status ≢ 1
      → Refuses (initiate_abort_bulk_out other) (status ∷ w.tmc.transfer_tag ∷ []) w
  unfolding initiate_abort_bulk_out
  out_refused status h refused = (
    subst (λ s. Tells (initiate_abort_bulk_out other) (s ∷ w.tmc.transfer_tag ∷ []) w) h
        (abort_out-Tells other w),
    rw (h, differs status 1 refused) refl,
  )

  in_refused :
      (status : ℕ)
      → abort_status other w.tmc ≡ status
      → status ≢ 1
      → Refuses (initiate_abort_bulk_in other) (status ∷ w.tmc.transfer_tag ∷ []) w
  unfolding initiate_abort_bulk_in
  in_refused status h refused = (
    subst (λ s. Tells (initiate_abort_bulk_in other) (s ∷ w.tmc.transfer_tag ∷ []) w) h
        (abort_in-Tells other w),
    rw (h, differs status 1 refused) refl,
  )

  pub busy-IsRefused : w.tmc.request_in_progress ≢ 0 → IsRefused other w
  busy-IsRefused busy = record {
    clear = clear_refused busy;
    abort_out = out_refused 0x83 (busy_status busy) (λ h. absurd (omega (arith, h)));
    abort_in = in_refused 0x83 (busy_status busy) (λ h. absurd (omega (arith, h)));
  }

  check_refused :
      (req : ℕ) (flag : Bool) (check : World → World) (report : ℕ → World → List ℕ)
      → w.tmc.request_in_progress ≡ 0
      → req ≢ 0
      → Tells check (report (check_status req flag w.tmc) w) w
      → (check_status req flag w.tmc ≡ 0x82
          → (check w).tmc.request_in_progress ≡ w.tmc.request_in_progress)
      → Refuses check (report 0x82 w) w
  check_refused req flag check report idle some_req tells stays =
      let h = none_status req flag idle some_req in
      (subst (λ s. Tells check (report s w) w) h tells, stays h)

  pub idle-IsMissing :
      w.tmc.request_in_progress ≡ 0 → other ≢ w.tmc.transfer_tag → IsMissing other w
  unfolding check_abort_bulk_out check_abort_bulk_in check_clear
  idle-IsMissing idle tag = record {
    abort_out = out_refused 0x81 (tag_status idle tag) (λ h. absurd (omega (arith, h)));
    abort_in = in_refused 0x81 (tag_status idle tag) (λ h. absurd (omega (arith, h)));
    check_out =
        check_refused req_initiate_abort_bulk_out w.tmc.out_reset check_abort_bulk_out abort_report
          idle (λ h. absurd (omega (arith, h))) (check_out-Tells w) (λ h. rw h refl);
    check_in =
        check_refused req_initiate_abort_bulk_in w.tmc.in_reset check_abort_bulk_in abort_report
          idle (λ h. absurd (omega (arith, h))) (check_in-Tells w) (λ h. rw h refl);
    check_cleared =
        check_refused req_initiate_clear _ check_clear clear_report idle
          (λ h. absurd (omega (arith, h))) (check_clear-Tells w) (λ h. rw h refl);
  }
