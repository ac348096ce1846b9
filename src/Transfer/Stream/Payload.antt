-- ===== src/Transfer/Stream/Payload.antt =====
-- What the two stream routines hand to the host.
use usb_gpib.Base.{
  ℕ, zero, suc, Bool, true, false, ◌≡◌, refl, ◌∙◌, ◌+◌, List, [], ◌∷◌, ◌++◌, append_assoc,
  append-nil, take, drop, length, subst, arith,
}
use usb_gpib.State.{
  World, Env, UsbEvent, write, write_stream, clear_in, clear_out, abort_in, stall, clear_setup,
  status_stage, attach, detach,
}
use usb_gpib.Exec.{M, pure, Ensures, Ensures-weaken}
use usb_gpib.Endpoint.{show, write_8}
use usb_gpib.Transfer.Stream.{
  write_all, at_most, when_ready, quick_rounds, write_stream_quick, plain_rounds,
  write_stream_plain,
}

-- The bytes that were written one by one.
abbrev pub payload : List UsbEvent → List ℕ
payload [] = []
payload (write ep b ∷ bs) = b ∷ payload bs
payload (write_stream ep cs ∷ bs) = payload bs
payload (clear_in ep ∷ bs) = payload bs
payload (clear_out ep ∷ bs) = payload bs
payload (abort_in ep ∷ bs) = payload bs
payload (stall ep ∷ bs) = payload bs
payload (clear_setup ∷ bs) = payload bs
payload (status_stage ∷ bs) = payload bs
payload (attach ∷ bs) = payload bs
payload (detach ∷ bs) = payload bs

payload-append : (xs bs : List UsbEvent) → payload (xs ++ bs) ≡ payload xs ++ payload bs
payload-append [] bs = refl
payload-append (write ep b ∷ xs) bs = rw (payload-append xs bs)
payload-append (write_stream ep cs ∷ xs) bs = payload-append xs bs
payload-append (clear_in ep ∷ xs) bs = payload-append xs bs
payload-append (clear_out ep ∷ xs) bs = payload-append xs bs
payload-append (abort_in ep ∷ xs) bs = payload-append xs bs
payload-append (stall ep ∷ xs) bs = payload-append xs bs
payload-append (clear_setup ∷ xs) bs = payload-append xs bs
payload-append (status_stage ∷ xs) bs = payload-append xs bs
payload-append (attach ∷ xs) bs = payload-append xs bs
payload-append (detach ∷ xs) bs = payload-append xs bs

abbrev pub handed : World → List ℕ
handed w = payload w.usb.events

handed-write_all : (bs : List ℕ) (w : World) → handed (write_all bs w) ≡ handed w ++ bs
handed-write_all [] w = rw append-nil
handed-write_all (b ∷ bs) w =
    handed-write_all bs (write_8 b w) ∙ rw (payload-append w.usb.events, append_assoc) refl

take-drop : (n : ℕ) (l : List ℕ) → take n l ++ drop n l ≡ l
take-drop zero l = refl
take-drop (suc n) [] = refl
take-drop (suc n) (b ∷ l) = rw (take-drop n l)

-- The host was handed a beginning of the buffer, and all of it where there was no error.
pub record IsHanded (bs : List ℕ) (w : World) (error : ℕ) (u : World) : Type 0 where
  pub sent : List ℕ
  pub rest : List ℕ
  pub split : bs ≡ sent ++ rest
  pub handed_eq : handed u ≡ handed w ++ sent
  pub complete : error ≡ 0 → rest ≡ []

-- After the first bytes.
IsHanded-after :
    (xs bs : List ℕ) (w v u : World) (error : ℕ)
    → handed v ≡ handed w ++ xs
    → IsHanded bs v error u
    → IsHanded (xs ++ bs) w error u
IsHanded-after xs bs w v u error same h = record {
  sent = xs ++ h.sent;
  rest = h.rest;
  split = rw (h.split, append_assoc);
  handed_eq = h.handed_eq ∙ rw (same, append_assoc) refl;
  complete = h.complete;
}

module _ (e : Env) where
  ready-IsHanded :
      (bs : List ℕ) (k : M ℕ) (w v : World)
      → handed v ≡ handed w
      → ((u : World) → handed u ≡ handed w → Ensures (IsHanded bs w) (k u))
      → Ensures (IsHanded bs w) (when_ready e k v)
  ready-IsHanded bs k w v same h = go (e.ready_error v.now) (record v { now = v.now + 1 }) same
    where
      go :
          (error : ℕ) (u : World)
          → handed u ≡ handed w
          → Ensures (IsHanded bs w) (elim error as (λ _. M ℕ) [ zero ↦ k | suc n ↦ pure (suc n) ] u)
      go zero u eq = h u eq
      go (suc n) u eq = record {
        sent = [];
        rest = bs;
        split = refl;
        handed_eq = rw (eq, append-nil);
        complete = λ z. ground arith;
      }

  -- One round of a loop: the next bytes are written, or a packet is closed.
  round-IsHanded :
      (bs : List ℕ) (open_ full : M ℕ) (w : World)
      → ((u : World) → handed u ≡ handed w → Ensures (IsHanded bs w) (open_ u))
      → ((u : World) → handed u ≡ handed w → Ensures (IsHanded bs w) (full u))
      → (allowed : Bool) (u : World) → handed u ≡ handed w
      → Ensures (IsHanded bs w) (elim allowed as (λ _. M ℕ) [ true ↦ open_ | false ↦ full ] u)
  round-IsHanded bs open_ full w h k true = h
  round-IsHanded bs open_ full w h k false = k

  -- A closed packet hands nothing over.
  handed-closed : (u w : World) → handed u ≡ handed w → handed (show clear_in u) ≡ handed w
  handed-closed u w same = rw (payload-append u.usb.events, same, append-nil)

  none_left : (w v : World) → handed v ≡ handed w → IsHanded [] w 0 v
  none_left w v same = record {
    sent = [];
    rest = [];
    split = refl;
    handed_eq = rw (same, append-nil);
    complete = λ z. refl;
  }

  quick-IsHanded :
      (n : ℕ) (bs : List ℕ) (chunk size : ℕ) (w v : World)
      → handed v ≡ handed w
      → Ensures (IsHanded bs w) (quick_rounds e n bs chunk size v)
  unfolding quick_rounds
  quick-IsHanded n [] chunk size w v same = none_left w v same
  quick-IsHanded zero (b ∷ bs) chunk size w v same = tt
  quick-IsHanded (suc n) (b ∷ bs) chunk size w v same =
      let m = at_most chunk (length (b ∷ bs)) in
      let now_ = take m (b ∷ bs) in
      let later = drop m (b ∷ bs) in
      round-IsHanded (b ∷ bs) _ _ w
        (λ u eq.
          Ensures-weaken (IsHanded later (write_all now_ u)) (IsHanded (b ∷ bs) w)
            (quick_rounds e n later size size (write_all now_ u))
            (quick-IsHanded n later size size (write_all now_ u) (write_all now_ u) refl)
            λ error x h.
              subst (λ l. IsHanded l w error x) (take-drop m (b ∷ bs))
                (IsHanded-after now_ later w (write_all now_ u) x error
                  (handed-write_all now_ u ∙ rw eq refl) h))
        (λ u eq.
          ready-IsHanded (b ∷ bs) (quick_rounds e n (b ∷ bs) chunk size) w (show clear_in u)
            (handed-closed u w eq) λ x eq'. quick-IsHanded n (b ∷ bs) chunk size w x eq')
        (e.allowed v.now) (record v { now = v.now + 1 }) same

  plain-IsHanded :
      (n : ℕ) (bs : List ℕ) (w v : World)
      → handed v ≡ handed w
      → Ensures (IsHanded bs w) (plain_rounds e n bs v)
  unfolding plain_rounds
  plain-IsHanded n [] w v same = none_left w v same
  plain-IsHanded zero (b ∷ bs) w v same = tt
  plain-IsHanded (suc n) (b ∷ bs) w v same =
      round-IsHanded (b ∷ bs) _ _ w
        (λ u eq.
          Ensures-weaken (IsHanded bs (write_8 b u)) (IsHanded (b ∷ bs) w)
            (plain_rounds e n bs (write_8 b u))
            (plain-IsHanded n bs (write_8 b u) (write_8 b u) refl)
            λ error x h.
              IsHanded-after (b ∷ []) bs w (write_8 b u) x error
                (payload-append u.usb.events _ ∙ rw eq refl) h)
        (λ u eq.
          ready-IsHanded (b ∷ bs) (plain_rounds e n (b ∷ bs)) w (show clear_in u)
            (handed-closed u w eq) λ x eq'. plain-IsHanded n (b ∷ bs) w x eq')
        (e.allowed v.now) (record v { now = v.now + 1 }) same

  -- The chunked routine and the plain one keep the same promise, whatever the sizes of the chunks and
  -- whenever the endpoint is ready: each hands over a beginning of the buffer, in order and without a
  -- gap, and all of it where it returns no error.
  pub streams-IsHanded :
      (bs : List ℕ) (first size : ℕ) (w : World)
      → Ensures (IsHanded bs w) (write_stream_quick e bs first size w)
        × Ensures (IsHanded bs w) (write_stream_plain e bs w)
  unfolding write_stream_quick write_stream_plain
  streams-IsHanded bs first size w = (
    ready-IsHanded bs (quick_rounds e e.polls bs first size) w w refl
        (λ u eq. quick-IsHanded e.polls bs first size w u eq),
    ready-IsHanded bs (plain_rounds e e.polls bs) w w refl
        (λ u eq. plain-IsHanded e.polls bs w u eq),
  )
