-- ===== src/Device/Identify/Stripped.antt =====
-- The trailing underscores that `identifyGpibDevice` strips from a text.
use usb_gpib.Base.{
  ℕ, zero, suc, Bool, true, false, get_or, Bool-cases, inl, inr, ◌<◌, ◌≡◌, refl, sym, ◌∙◌, ap,
  subst, List, [], ◌∷◌, ◌++◌, append_assoc, append-nil, ◌≤◌, ◌+◌, ◌-◌, ◌==◌, ◌&&◌, ltb, length,
  length-append, take, take-append, if◌then◌else◌, arith,
}
use usb_gpib.State.{Serial}
use usb_gpib.Device.Identify.{strip, strip_rounds, last_read}
use usb_gpib.Device.Identify.Clean.{all_plain}

-- A beginning of the list.
pub record IsBeginning (ds cs : List ℕ) : Type 0 where
  pub rest : List ℕ
  pub split : cs ≡ ds ++ rest

-- Whatever follows the list, it starts with the beginning.
pub beginning_same :
    (ds cs : List ℕ) → IsBeginning ds cs → (t : List ℕ) → take (length ds) (cs ++ t) ≡ ds
beginning_same ds cs h t =
    ap (λ xs. take (length ds) (xs ++ t)) h.split
    ∙ ap (take (length ds)) (append_assoc ds h.rest t)
    ∙ take-append ds (h.rest ++ t)

plain_first : (ds es : List ℕ) → all_plain (ds ++ es) ≡ true → all_plain ds ≡ true
plain_first [] es h = refl
plain_first (d ∷ ds) es h = ground (arith, h, plain_first ds es)

pub beginning_plain :
    (ds cs : List ℕ) → IsBeginning ds cs → all_plain cs ≡ true → all_plain ds ≡ true
beginning_plain ds cs h plain = plain_first ds h.rest (ap all_plain (sym h.split) ∙ plain)

pub beginning_shorter : (ds cs : List ℕ) → IsBeginning ds cs → length ds ≤ length cs
beginning_shorter ds cs h = omega (arith, ap length h.split, length-append ds h.rest)

pub IsBeginning-refl : (cs : List ℕ) → IsBeginning cs cs
IsBeginning-refl cs = record { rest = []; split = sym (append-nil cs) }

IsBeginning-trans : (ds cs bs : List ℕ) → IsBeginning ds cs → IsBeginning cs bs → IsBeginning ds bs
IsBeginning-trans ds cs bs h k = record {
  rest = h.rest ++ k.rest;
  split = k.split ∙ ap (λ xs. xs ++ k.rest) h.split ∙ append_assoc ds h.rest k.rest;
}

IsBeginning-take : (n : ℕ) (cs : List ℕ) → IsBeginning (take n cs) cs
IsBeginning-take zero cs = record { rest = cs; split = refl }
IsBeginning-take (suc n) [] = record { rest = []; split = refl }
IsBeginning-take (suc n) (c ∷ cs) =
    let h = IsBeginning-take n cs in record { rest = h.rest; split = ap (λ xs. c ∷ xs) h.split }

-- The list, or a beginning of it.
either-IsBeginning :
    (b : Bool) (ds cs : List ℕ) → IsBeginning ds cs → IsBeginning (if b then ds else cs) cs
either-IsBeginning true ds cs h = h
either-IsBeginning false ds cs h = IsBeginning-refl cs

rounds-IsBeginning : (s : Serial) (n : ℕ) (cs : List ℕ) → IsBeginning (strip_rounds s n cs) cs
unfolding strip_rounds
rounds-IsBeginning s zero cs = IsBeginning-refl cs
rounds-IsBeginning s (suc n) cs =
    let shorter = take (length cs - 1) cs in
    either-IsBeginning (last_read s cs == b'_' && ltb 1 (length cs)) (strip_rounds s n shorter) cs (
      IsBeginning-trans (strip_rounds s n shorter) shorter cs (rounds-IsBeginning s n shorter)
        (IsBeginning-take (length cs - 1) cs))

pub strip-IsBeginning : (s : Serial) (cs : List ℕ) → IsBeginning (strip s cs) cs
unfolding strip
strip-IsBeginning s cs = rounds-IsBeginning s (length cs + 1) cs

-- More than one character, and the last one is an underscore.
abbrev pub is_ragged : List ℕ → Bool
is_ragged cs = ltb 1 (length cs) && get_or cs (length cs - 1) 0 == b'_'

length-take_short : (n : ℕ) (cs : List ℕ) → length (take n cs) ≤ n
length-take_short zero cs = omega arith
length-take_short (suc n) [] = omega arith
length-take_short (suc n) (c ∷ cs) = omega (arith, length-take_short n cs)

swapped : (a b : Bool) → (a && b) ≡ false → (b && a) ≡ false
swapped a b h = ground (arith, h)

last_index : (n : ℕ) → n ≡ suc n - 1
last_index n = omega arith

-- The loop stops where that is not so.
stopped :
    (s : Serial) (cs : List ℕ)
    → (last_read s cs == b'_' && ltb 1 (length cs)) ≡ false
    → is_ragged cs ≡ false
stopped s [] h = refl
stopped s (c ∷ cs) h =
    subst (λ k. (ltb 1 (length (c ∷ cs)) && get_or (c ∷ cs) k 0 == b'_') ≡ false)
      (last_index (length cs)) (swapped (last_read s (c ∷ cs) == b'_') (ltb 1 (length (c ∷ cs))) h)

again : (a b : Bool) → (a && b) ≡ true → b ≡ true
again a b h = ground (arith, h)

rounds_end :
    (s : Serial) (n : ℕ) (cs : List ℕ) → length cs < n → is_ragged (strip_rounds s n cs) ≡ false
unfolding strip_rounds
rounds_end s zero cs lt = absurd (omega (arith, lt))
rounds_end s (suc n) cs lt = elim (Bool-cases (last_read s cs == b'_' && ltb 1 (length cs))) [
  | inl more ↦ rw more (
      rounds_end s n (take (length cs - 1) cs) (
        ground (
          arith,
          lt,
          length-take_short (length cs - 1) cs,
          again (last_read s cs == b'_') (ltb 1 (length cs)) more,
        )))
  | inr over ↦ rw over (stopped s cs over)
]

-- The rounds are enough: no underscore is left at the end, but where it is all.
pub strip_end : (s : Serial) (cs : List ℕ) → is_ragged (strip s cs) ≡ false
unfolding strip
strip_end s cs = rounds_end s (length cs + 1) cs (omega arith)
