-- ===== src/Transfer/Stream/Apart.antt =====
-- What writing a buffer to an endpoint leaves alone.
use usb_gpib.Base.{ℕ, zero, suc, Bool, true, false, refl, List, [], ◌∷◌, length, take, drop, ◌+◌}
use usb_gpib.State.{World, Env, Usb, clear_in}
use usb_gpib.Exec.{M, pure, Ensures, Ensures-weaken}
use usb_gpib.Endpoint.{show, write_8}
use usb_gpib.Gpib.Handshake.Apart.{Side, Apart, Apart-trans, Keeps}
use usb_gpib.Transfer.Stream.{
  write_all, at_most, when_ready, quick_rounds, write_stream_quick, plain_rounds,
  write_stream_plain,
}

module _ (s : Side) (usb_ok : (b b' : Usb) → s.SameUsb b b') (e : Env) where
  -- A change on the USB side, and time.
  aside : (w : World) (b : Usb) (n : ℕ) → Apart s w (record w { usb = b; now = n })
  aside w b n = (s.tmc-refl, usb_ok w.usb b, refl, refl, refl, refl, refl, λ low. low)

  write_all-Apart : (bs : List ℕ) (w : World) → Apart s w (write_all bs w)
  write_all-Apart [] w = aside w w.usb w.now
  write_all-Apart (b ∷ bs) w =
      Apart-trans s w (write_8 b w) (write_all bs (write_8 b w)) (aside w (write_8 b w).usb w.now)
        (write_all-Apart bs (write_8 b w))

  -- A run from a state that differs on the USB side.
  from :
      {A : Type 0} (m : M A) (w v : World)
      → Apart s w v
      → Keeps s m
      → Ensures (λ a u. Apart s w u) (m v)
  from m w v a h =
      Ensures-weaken (λ b u. Apart s v u) (λ b u. Apart s w u) (m v) (h v)
        λ b u k. Apart-trans s w v u a k

  ready-Keeps : (m : M ℕ) → Keeps s m → Keeps s (when_ready e m)
  ready-Keeps m h w = by_error (e.ready_error w.now)
    where
      by_error :
          (error : ℕ)
          → Ensures
              (λ a u. Apart s w u)
              (elim error as (λ _. M ℕ) [ zero ↦ m | suc n ↦ pure (suc n) ]
                (record w { now = w.now + 1 }))
      by_error zero = from m w _ (aside w w.usb (w.now + 1)) h
      by_error (suc n) = aside w w.usb (w.now + 1)

  by_allowed :
      (allowed : Bool) (m k : M ℕ) (w v : World)
      → Ensures (λ a u. Apart s w u) (m v)
      → Ensures (λ a u. Apart s w u) (k v)
      → Ensures (λ a u. Apart s w u) (elim allowed as (λ _. M ℕ) [ true ↦ m | false ↦ k ] v)
  by_allowed true m k w v h _ = h
  by_allowed false m k w v _ h = h

  quick_rounds-Keeps :
      (n : ℕ) (bs : List ℕ) (chunk size : ℕ) → Keeps s (quick_rounds e n bs chunk size)
  unfolding quick_rounds
  quick_rounds-Keeps n [] chunk size w = aside w w.usb w.now
  quick_rounds-Keeps zero (b ∷ bs) chunk size w = tt
  quick_rounds-Keeps (suc n) (b ∷ bs) chunk size w =
      let v = record w { now = w.now + 1 } in
      let some_ = take (at_most chunk (length (b ∷ bs))) (b ∷ bs) in
      let rest = drop (at_most chunk (length (b ∷ bs))) (b ∷ bs) in
      by_allowed (e.allowed w.now) _ _ w v
        (from (quick_rounds e n rest size size) w (write_all some_ v)
          (Apart-trans s w v (write_all some_ v) (aside w w.usb (w.now + 1))
            (write_all-Apart some_ v))
          (quick_rounds-Keeps n rest size size))
        (from (when_ready e (quick_rounds e n (b ∷ bs) chunk size)) w (show clear_in v)
          (aside w (show clear_in v).usb (w.now + 1))
          (ready-Keeps (quick_rounds e n (b ∷ bs) chunk size)
            (quick_rounds-Keeps n (b ∷ bs) chunk size)))

  pub quick_stream-Keeps :
      (bs : List ℕ) (first size : ℕ) → Keeps s (write_stream_quick e bs first size)
  unfolding write_stream_quick
  quick_stream-Keeps bs first size =
      ready-Keeps (quick_rounds e e.polls bs first size) (quick_rounds-Keeps e.polls bs first size)

  plain_rounds-Keeps : (n : ℕ) (bs : List ℕ) → Keeps s (plain_rounds e n bs)
  unfolding plain_rounds
  plain_rounds-Keeps n [] w = aside w w.usb w.now
  plain_rounds-Keeps zero (b ∷ bs) w = tt
  plain_rounds-Keeps (suc n) (b ∷ bs) w =
      let v = record w { now = w.now + 1 } in
      by_allowed (e.allowed w.now) _ _ w v
        (from (plain_rounds e n bs) w (write_8 b v) (aside w (write_8 b v).usb (w.now + 1))
          (plain_rounds-Keeps n bs))
        (from (when_ready e (plain_rounds e n (b ∷ bs))) w (show clear_in v)
          (aside w (show clear_in v).usb (w.now + 1))
          (ready-Keeps (plain_rounds e n (b ∷ bs)) (plain_rounds-Keeps n (b ∷ bs))))

  pub plain_stream-Keeps : (bs : List ℕ) → Keeps s (write_stream_plain e bs)
  unfolding write_stream_plain
  plain_stream-Keeps bs = ready-Keeps (plain_rounds e e.polls bs) (plain_rounds-Keeps e.polls bs)
