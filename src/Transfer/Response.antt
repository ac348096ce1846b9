-- ===== src/Transfer/Response.antt =====
-- A response to an internal query, read in parts.
use usb_gpib.Base.{
  ℕ, zero, suc, Bool, true, false, ◌≡◌, refl, ◌∙◌, sym, subst, List, [], ◌∷◌, ◌++◌, append-nil, ◌+◌,
  ◌-◌, ◌%◌, ◌≤◌, ◌<◌, leb, min, length, take, drop, arith,
}
use usb_gpib.State.{Response}
use usb_gpib.Parser.Settings.{IsResponse, pending}
use usb_gpib.Transfer.Task.{next_response, part_if, part_size}

module _ {ℓ} {A : Type ℓ} where
  take-nil : (n : ℕ) → take {A = A} n [] ≡ []
  take-nil zero = refl
  take-nil (suc n) = refl

  drop-nil : (n : ℕ) → drop {A = A} n [] ≡ []
  drop-nil zero = refl
  drop-nil (suc n) = refl

  -- The first part of what lies before position `l`, and the rest of it.
  take-drop : (n l : ℕ) (xs : List A) → n ≤ l → take n xs ++ drop n (take l xs) ≡ take l xs
  take-drop zero l xs h = refl
  take-drop (suc n) zero xs h = absurd (omega arith)
  take-drop (suc n) (suc l) [] h = refl
  take-drop (suc n) (suc l) (x ∷ xs) h = rw (take-drop n l xs (omega arith))

  -- The same from a position `r` on.
  take-drop_from :
      (r n m l : ℕ) (xs : List A)
      → m ≡ r + n
      → m ≤ l
      → take n (drop r xs) ++ drop m (take l xs) ≡ drop r (take l xs)
  take-drop_from zero n m l xs sum h =
      let same : m ≡ n = omega arith in rw same (take-drop n l xs (omega arith))
  take-drop_from (suc r) n m l [] sum h = rw (take-nil n, take-nil l, drop-nil m)
  take-drop_from (suc r) n zero l (x ∷ xs) sum h = absurd (omega arith)
  take-drop_from (suc r) n (suc m) zero (x ∷ xs) sum h = absurd (omega arith)
  take-drop_from (suc r) n (suc m) (suc l) (x ∷ xs) sum h =
      take-drop_from r n m l xs (omega arith) (omega arith)

  drop-take : (l : ℕ) (xs : List A) → drop l (take l xs) ≡ []
  drop-take zero xs = refl
  drop-take (suc l) [] = refl
  drop-take (suc l) (x ∷ xs) = drop-take l xs

  length-take_le : (n : ℕ) (xs : List A) → length (take n xs) ≤ n
  length-take_le zero xs = omega arith
  length-take_le (suc n) [] = omega arith
  length-take_le (suc n) (x ∷ xs) = omega (arith, length-take_le n xs)

-- How many bytes go out, and where the read position goes.
part :
    (size len rpos : ℕ)
    → len < 8
    → rpos ≤ len
    → (min size ((len + 65536 - rpos) % 65536) ≤ size)
      × (rpos + min size ((len + 65536 - rpos) % 65536) ≤ len)
part size len rpos h k = ground arith

-- A byte holds the read position.
position : (len pos : ℕ) → len < 8 → pos ≤ len → pos % 256 ≡ pos
position len pos h k = omega (arith, h, k)

-- What one read keeps.
abbrev IsRead : ℕ → Response → List ℕ × Response → Type 0
IsRead size r p = (p.0 ++ pending p.1 ≡ pending r) × (length p.0 ≤ size) × IsResponse p.1

-- The whole of a response was read, or a part.
part_if-IsRead :
    (size n : ℕ) (r : Response) (done : Bool)
    → IsResponse r
    → n ≤ size
    → r.rpos + n ≤ r.len
    → leb r.len (r.rpos + n) ≡ done
    → IsRead size r (part_if done r n (r.rpos + n))
part_if-IsRead size n r true h fits le d =
    let all : r.rpos + n ≡ r.len = ground arith in
    (
      rw append-nil (
          (rw (drop-take r.len r.buffer, append-nil) refl)
          ∙ take-drop_from r.rpos n r.len r.len r.buffer (omega (arith, all)) (omega arith)),
      omega (arith, length-take_le n (drop r.rpos r.buffer), fits),
      record { size = h.size; len_lt = omega arith; rpos_le = omega arith },
    )
part_if-IsRead size n r false h fits le d = (
  take-drop_from r.rpos n (r.rpos + n) r.len r.buffer refl le,
  omega (arith, length-take_le n (drop r.rpos r.buffer), fits),
  record { size = h.size; len_lt = h.len_lt; rpos_le = le },
)

-- Each read of an internal response gives the host at most the bytes it asked for; these and what a later
-- read finds are what was pending before, in order and without a gap, and the buffer stays valid.
pub next_response-pending :
    (size : ℕ) (r : Response)
    → IsResponse r
    → ((next_response size r).0 ++ pending (next_response size r).1 ≡ pending r)
      × (length (next_response size r).0 ≤ size)
      × IsResponse (next_response size r).1
unfolding next_response
next_response-pending size r h =
    let n = part_size size r in
    let fits = part size r.len r.rpos h.len_lt h.rpos_le in
    subst (λ pos. IsRead size r (part_if (leb r.len pos) r n pos))
      (sym (position r.len (r.rpos + n) h.len_lt fits.1))
      (part_if-IsRead size n r (leb r.len (r.rpos + n)) h fits.0 fits.1 refl)
