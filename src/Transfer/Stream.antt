-- ===== src/Transfer/Stream.antt =====
-- The two routines that write a buffer to an endpoint of the host: `Endpoint_Write_Stream_LE_quick`,
-- in chunks, and `Endpoint_Write_Stream_LE_noUsbTask`, byte by byte.
pub mod Payload
pub mod Ready
pub mod Apart
use usb_gpib.Base.{
  ℕ, zero, suc, Bool, true, false, List, [], ◌∷◌, ◌+◌, ◌==◌, ltb, length, take, drop, if◌then◌else◌,
}
use usb_gpib.State.{World, Env, clear_in}
use usb_gpib.Exec.{M, ret, waiting, pure, modify, ◌>>=◌, ◌>>◌}
use usb_gpib.Endpoint.{show, write_8}

-- `while (chunklength--) Endpoint_Write_8(*DataStream++);`
abbrev pub write_all : List ℕ → World → World
write_all [] w = w
write_all (b ∷ bs) w = write_all bs (write_8 b w)

-- `if (chunklength > Length) chunklength = Length;`
abbrev pub at_most : ℕ → ℕ → ℕ
at_most n len = if ltb len n then len else n

module _ (e : Env) where
  abbrev pub wait_until_ready : M ℕ
  wait_until_ready w = ret (e.ready_error w.now) (record w { now = w.now + 1 })

  abbrev pub is_allowed : M Bool
  is_allowed w = ret (e.allowed w.now) (record w { now = w.now + 1 })

  -- `if ((ErrorCode = Endpoint_WaitUntilReady())) return ErrorCode;`, and what follows it.
  abbrev pub when_ready : M ℕ → M ℕ
  when_ready k = do error ← wait_until_ready; elim error [ zero ↦ k | suc n ↦ pure (suc n) ]

  -- The loop of `Endpoint_Write_Stream_LE_quick`, for at most so many rounds.
  unfoldable pub quick_rounds : ℕ → List ℕ → ℕ → ℕ → M ℕ
  quick_rounds n [] chunk size = pure 0
  quick_rounds zero (b ∷ bs) chunk size = λ w. waiting
  quick_rounds (suc n) (b ∷ bs) chunk size = do
    allowed ← is_allowed
    elim allowed [
      | true ↦ do
        modify (write_all (take (at_most chunk (length (b ∷ bs))) (b ∷ bs)))
        quick_rounds n (drop (at_most chunk (length (b ∷ bs))) (b ∷ bs)) size size
      | false ↦ do modify (show clear_in); when_ready (quick_rounds n (b ∷ bs) chunk size)
    ]

  -- `Endpoint_Write_Stream_LE_quick`
  unfoldable pub write_stream_quick : List ℕ → ℕ → ℕ → M ℕ
  unfolding quick_rounds
  write_stream_quick bs first size = when_ready (quick_rounds e.polls bs first size)

  -- The loop of `Endpoint_Write_Stream_LE_noUsbTask`, for at most so many rounds.
  unfoldable pub plain_rounds : ℕ → List ℕ → M ℕ
  plain_rounds n [] = pure 0
  plain_rounds zero (b ∷ bs) = λ w. waiting
  plain_rounds (suc n) (b ∷ bs) = do
    allowed ← is_allowed
    elim allowed [
      | true ↦ do modify (write_8 b); plain_rounds n bs
      | false ↦ do modify (show clear_in); when_ready (plain_rounds n (b ∷ bs))
    ]

  -- `Endpoint_Write_Stream_LE_noUsbTask`
  unfoldable pub write_stream_plain : List ℕ → M ℕ
  unfolding plain_rounds
  write_stream_plain bs = when_ready (plain_rounds e.polls bs)
