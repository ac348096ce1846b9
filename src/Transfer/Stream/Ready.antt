-- ===== src/Transfer/Stream/Ready.antt =====
-- Writing a buffer to an endpoint returns, where an endpoint that is ready takes bytes.
use usb_gpib.Base.{
  ℕ, zero, suc, true, false, ◌≡◌, refl, List, [], ◌∷◌, ◌+◌, ◌≤◌, ◌<◌, length, drop, length-drop,
  Bool-cases, inl, inr, arith,
}
use usb_gpib.State.{World, Env}
use usb_gpib.Exec.{M, pure, Returns}
use usb_gpib.Transfer.Stream.{
  at_most, when_ready, quick_rounds, write_stream_quick, plain_rounds, write_stream_plain,
}

-- What the USB library says of an endpoint: after a wait without an error it takes bytes.
abbrev pub IsOpen : Env → Type 0
IsOpen e = (n : ℕ) → e.ready_error n ≡ 0 → e.allowed (n + 1) ≡ true

at_most-positive : (n len : ℕ) → 0 < n → 0 < len → 0 < at_most n len
at_most-positive n len h k = ground arith

module _ (e : Env) (opens : IsOpen e) where
  -- What is left after a chunk.
  shorter :
      (n : ℕ) (bs : List ℕ)
      → 0 < n
      → 0 < length bs
      → length (drop (at_most n (length bs)) bs) < length bs
  shorter n bs h k =
      omega (arith, length-drop (at_most n (length bs)) bs, at_most-positive n (length bs) h k, k)

  -- A round at a moment when the endpoint takes bytes.
  quick_chunk :
      (n : ℕ) (b : ℕ) (bs : List ℕ) (chunk size : ℕ) (w : World)
      → e.allowed w.now ≡ true
      → ((cs : List ℕ) (v : World)
          → length cs < length (b ∷ bs)
          → Returns (λ a u. Unit {0}) (quick_rounds e n cs size size v))
      → 0 < chunk
      → Returns (λ a u. Unit {0}) (quick_rounds e (suc n) (b ∷ bs) chunk size w)
  unfolding quick_rounds
  quick_chunk n b bs chunk size w open_ rest h = rw open_ (
      rest (drop (at_most chunk (length (b ∷ bs))) (b ∷ bs)) _
        (shorter chunk (b ∷ bs) h (omega arith)))

  -- A wait for the endpoint, and what follows it.
  ready_then :
      (m : M ℕ) (w : World)
      → ((v : World) → e.allowed v.now ≡ true → Returns (λ a u. Unit {0}) (m v))
      → Returns (λ a u. Unit {0}) (when_ready e m w)
  ready_then m w rest = by_error (e.ready_error w.now) refl
    where
      by_error :
          (error : ℕ)
          → e.ready_error w.now ≡ error
          → Returns
              (λ a u. Unit {0})
              (elim error as (λ _. M ℕ) [ zero ↦ m | suc n ↦ pure (suc n) ]
                (record w { now = w.now + 1 }))
      by_error zero h = rest _ (opens w.now h)
      by_error (suc n) h = tt

  -- A round at a moment when it does not.
  quick_wait :
      (n : ℕ) (b : ℕ) (bs : List ℕ) (chunk size : ℕ) (w : World)
      → e.allowed w.now ≡ false
      → ((v : World)
          → e.allowed v.now ≡ true
          → Returns (λ a u. Unit {0}) (quick_rounds e n (b ∷ bs) chunk size v))
      → Returns (λ a u. Unit {0}) (quick_rounds e (suc n) (b ∷ bs) chunk size w)
  unfolding quick_rounds
  quick_wait n b bs chunk size w shut rest =
      rw shut (ready_then (quick_rounds e n (b ∷ bs) chunk size) _ rest)

  quick-Returns :
      (n : ℕ) (bs : List ℕ) (chunk size : ℕ) (w : World)
      → length bs + length bs ≤ n
      → 0 < chunk
      → 0 < size
      → Returns (λ a u. Unit {0}) (quick_rounds e n bs chunk size w)
  unfolding quick_rounds
  quick-Returns n [] chunk size w le h k = tt
  quick-Returns zero (b ∷ bs) chunk size w le h k = absurd (omega (arith, le))
  quick-Returns (suc zero) (b ∷ bs) chunk size w le h k = absurd (omega (arith, le))
  quick-Returns (suc (suc n)) (b ∷ bs) chunk size w le h k = elim (Bool-cases (e.allowed w.now)) [
    | inl open_ ↦
        quick_chunk (suc n) b bs chunk size w open_
          (λ cs v lt. quick-Returns (suc n) cs size size v (omega (arith, lt, le)) k k) h
    | inr shut ↦ quick_wait (suc n) b bs chunk size w shut λ v open_.
        quick_chunk n b bs chunk size v open_
          (λ cs x lt. quick-Returns n cs size size x (omega (arith, lt, le)) k k) h
  ]

  -- The chunked routine.
  pub quick_stream-Returns :
      (bs : List ℕ) (first size : ℕ) (w : World)
      → length bs + length bs ≤ e.polls
      → 0 < first
      → 0 < size
      → Returns (λ a u. Unit {0}) (write_stream_quick e bs first size w)
  unfolding write_stream_quick
  quick_stream-Returns bs first size w le h k =
      ready_then (quick_rounds e e.polls bs first size) w
        λ v _. quick-Returns e.polls bs first size v le h k

  -- A round of the plain routine at a moment when the endpoint takes bytes.
  plain_byte :
      (n : ℕ) (b : ℕ) (bs : List ℕ) (w : World)
      → e.allowed w.now ≡ true
      → ((v : World) → Returns (λ a u. Unit {0}) (plain_rounds e n bs v))
      → Returns (λ a u. Unit {0}) (plain_rounds e (suc n) (b ∷ bs) w)
  unfolding plain_rounds
  plain_byte n b bs w open_ rest = rw open_ (rest _)

  plain_wait :
      (n : ℕ) (b : ℕ) (bs : List ℕ) (w : World)
      → e.allowed w.now ≡ false
      → ((v : World)
          → e.allowed v.now ≡ true
          → Returns (λ a u. Unit {0}) (plain_rounds e n (b ∷ bs) v))
      → Returns (λ a u. Unit {0}) (plain_rounds e (suc n) (b ∷ bs) w)
  unfolding plain_rounds
  plain_wait n b bs w shut rest = rw shut (ready_then (plain_rounds e n (b ∷ bs)) _ rest)

  plain-Returns :
      (n : ℕ) (bs : List ℕ) (w : World)
      → length bs + length bs ≤ n
      → Returns (λ a u. Unit {0}) (plain_rounds e n bs w)
  unfolding plain_rounds
  plain-Returns n [] w le = tt
  plain-Returns zero (b ∷ bs) w le = absurd (omega (arith, le))
  plain-Returns (suc zero) (b ∷ bs) w le = absurd (omega (arith, le))
  plain-Returns (suc (suc n)) (b ∷ bs) w le = elim (Bool-cases (e.allowed w.now)) [
    | inl open_ ↦
        plain_byte (suc n) b bs w open_ λ v. plain-Returns (suc n) bs v (omega (arith, le))
    | inr shut ↦
        plain_wait (suc n) b bs w shut
          λ v open_. plain_byte n b bs v open_ λ x. plain-Returns n bs x (omega (arith, le))
  ]

  -- The routine that writes byte by byte.
  pub plain_stream-Returns :
      (bs : List ℕ) (w : World)
      → length bs + length bs ≤ e.polls
      → Returns (λ a u. Unit {0}) (write_stream_plain e bs w)
  unfolding write_stream_plain
  plain_stream-Returns bs w le =
      ready_then (plain_rounds e e.polls bs) w λ v _. plain-Returns e.polls bs v le
