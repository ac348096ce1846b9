-- ===== src/Parser/Address.antt =====
-- The numbers of the `addr` command: `numparser_addchar` and `parser_finalize` of miniparser.c.
pub mod Packed
use usb_gpib.Base.{
  ℕ, suc, Bool, true, false, Option, none, some, ◌≡◌, refl, ◌≢◌, ◌∙◌, ap, List, [], ◌∷◌, ◌++◌, ◌+◌,
  ◌-◌, ◌*◌, ◌/◌, ◌%◌, ◌≤◌, ◌<◌, ◌&&◌, ◌==◌, leb, ltb, ==_iff, if◌then◌else◌, bit_or, arith,
  passes_below, passes_below_sound, Bool-cases, ◌⊎◌, inl, inr,
}
use usb_gpib.State.{World, Parser}
use usb_gpib.Exec.{ret}
use usb_gpib.Parser.{numparser_init, numparser_addchar, decode_addr, parser_finalize}
use Packed.{bit_or_fields_lem, decode_addr_fields}

-- Some numbers parsed from a text: `numparser_addchar` for each character.
abbrev pub add_chars : List ℕ → Parser → Option Parser
add_chars [] p = some p
add_chars (c ∷ cs) p = elim (numparser_addchar c p) [ none ↦ none | some q ↦ add_chars cs q ]

abbrev pub is_digit : ℕ → Bool
is_digit c = leb 48 c && leb c 57

-- The separators of a text.
abbrev pub separators : List ℕ → ℕ
separators [] = 0
separators (c ∷ cs) = if is_digit c then separators cs else suc (separators cs)

-- The index of the current number, with 255 for none yet, is at most `k`.
abbrev pub IndexLe : ℕ → Parser → Type 0
IndexLe k p = p.num_idx ≢ 255 → p.num_idx ≤ k

-- The option holds a value with the property.
abbrev pub Holds : (Parser → Type 0) → Option Parser → Type 0
Holds P none = ⊥
Holds P (some p) = P p

module _ (c k : ℕ) (p : Parser) (h : IndexLe k p) where
  addchar_digit : is_digit c ≡ true → Holds (IndexLe k) (numparser_addchar c p)
  unfolding numparser_addchar
  addchar_digit d = ground (arith, h)

  addchar_separator : is_digit c ≡ false → k ≤ 2 → Holds (IndexLe (suc k)) (numparser_addchar c p)
  unfolding numparser_addchar
  addchar_separator d small = ground (arith, h)

then_chars :
    (cs : List ℕ) (k : ℕ) (o : Option Parser)
    → Holds (IndexLe k) o
    → ((p : Parser) → IndexLe k p → Holds (IndexLe 3) (add_chars cs p))
    → Holds (IndexLe 3) (elim o [ none ↦ none | some q ↦ add_chars cs q ])
then_chars cs k none h next = h
then_chars cs k (some p) h next = next p h

add_chars_from :
    (cs : List ℕ) (k : ℕ) (p : Parser)
    → IndexLe k p
    → k + separators cs ≤ 3
    → Holds (IndexLe 3) (add_chars cs p)
add_chars_from [] k p h small = λ ne. omega (arith, h ne)
add_chars_from (c ∷ cs) k p h small = elim (Bool-cases (is_digit c)) [
  | inl digit ↦
      then_chars cs k (numparser_addchar c p) (addchar_digit c k p h digit)
        λ q hq. add_chars_from cs k q hq (ground arith)
  | inr sep ↦
      then_chars cs (suc k) (numparser_addchar c p) (addchar_separator c k p h sep (ground arith))
        λ q hq. add_chars_from cs (suc k) q hq (ground arith)
]

-- The text from its first digit on.
abbrev pub from_digit : List ℕ → List ℕ
from_digit [] = []
from_digit (c ∷ cs) = if is_digit c then c ∷ cs else from_digit cs

addchar_leading :
    (c : ℕ) (p : Parser) → p.num_idx ≡ 255 → is_digit c ≡ false → numparser_addchar c p ≡ some p
unfolding numparser_addchar
addchar_leading c p h d = ground arith

add_chars_leading :
    (cs : List ℕ) (p : Parser)
    → p.num_idx ≡ 255
    → separators (from_digit cs) ≤ 3
    → Holds (IndexLe 3) (add_chars cs p)
add_chars_leading [] p h small = λ ne. absurd (ne h)
add_chars_leading (c ∷ cs) p h small = elim (Bool-cases (is_digit c)) [
  | inl digit ↦ add_chars_from (c ∷ cs) 0 p (λ ne. absurd (ne h)) (ground arith)
  | inr sep ↦ rw (addchar_leading c p h sep, add_chars) (add_chars_leading cs p h (ground arith))
]

index_cases :
    (k : ℕ) (o : Option Parser)
    → Holds (IndexLe k) o
    → Holds (λ q. (q.num_idx ≡ 255) ⊎ (q.num_idx ≤ k)) o
index_cases k none h = h
index_cases k (some p) h = elim (Bool-cases (p.num_idx == 255)) [
  | inl eq ↦ inl ((==_iff p.num_idx 255).0 eq)
  | inr ne ↦ inr (h (ground arith))
]

-- A text with at most three separators from its first digit on never makes `numparser_addchar` read
-- outside the three bytes of `addr`, and leaves the number index unset or at most 3.
pub numbers_in_bounds :
    (cs : List ℕ) (p : Parser)
    → separators (from_digit cs) ≤ 3
    → Holds (λ q. (q.num_idx ≡ 255) ⊎ (q.num_idx ≤ 3)) (add_chars cs (numparser_init p))
numbers_in_bounds cs p h = index_cases 3 _ (add_chars_leading cs (numparser_init p) refl h)

-- Where the number index is 2, as after two numbers each followed by a separator, two more characters
-- that are no digits make `numparser_addchar` read outside `addr`.
pub fourth_separator_overruns :
    (p : Parser) (c d : ℕ)
    → p.num_idx ≡ 2
    → is_digit c ≡ false
    → is_digit d ≡ false
    → add_chars (c ∷ d ∷ []) p ≡ none
unfolding numparser_addchar
fourth_separator_overruns p c d h hc hd = ground arith

-- The digits of a number below 1000, as a host writes it.
abbrev pub decimal : ℕ → List ℕ
decimal n =
    if ltb n 10
    then (48 + n) ∷ []
    else if ltb n 100
    then (48 + n / 10) ∷ (48 + n % 10) ∷ []
    else (48 + n / 100) ∷ (48 + n / 10 % 10) ∷ (48 + n % 10) ∷ []

-- The digits of a number below 255 fill the first slot, from the start, or the second one.
add_first :
    (n : ℕ) (cs : List ℕ) (p : Parser)
    → n < 255
    → p.num_idx ≡ 255
    → p.num0 ≡ 255
    → add_chars (decimal n ++ cs) p ≡ add_chars cs (record p { num0 = n; num_idx = 0 })
unfolding numparser_addchar
add_first n cs p small h h0 = ground arith

add_second :
    (n : ℕ) (cs : List ℕ) (p : Parser)
    → n < 255
    → p.num_idx ≡ 1
    → p.num1 ≡ 255
    → add_chars (decimal n ++ cs) p ≡ add_chars cs (record p { num1 = n; num_idx = 1 })
unfolding numparser_addchar
add_second n cs p small h h0 = ground arith

-- The address that is in force after a text of numbers was parsed for `addr` and finalised.
abbrev pub finalised : Option Parser → World → Option ℕ
finalised none w = none
finalised (some q) w = elim (parser_finalize (record w { parser = q })) [
  | ret a w' ↦ some w'.gpib_addr
  | _ ↦ none
]

-- Two numbers separated by one character reach `parser_finalize` as they were written.
numbers_select :
    (p n : ℕ) (w : World)
    → p < 255
    → n < 255
    → w.parser.decoding ≡ true
    → finalised
        (add_chars (32 ∷ (decimal p ++ (32 ∷ (decimal n ++ (95 ∷ []))))) (numparser_init w.parser))
        w
      ≡ some (decode_addr w.gpib_addr p n)
unfolding numparser_addchar parser_finalize
numbers_select p n w hp hn d =
    simp (λ (cs : List ℕ). add_first p cs (numparser_init w.parser) hp refl refl)
      (ground (arith, d))

-- Two parameters.
two_numbers_select :
    (p s : ℕ) (w : World)
    → 1 ≤ p
    → p ≤ 30
    → s ≤ 6
    → w.parser.decoding ≡ true
    → (finalised
          (add_chars
            (32 ∷ (decimal p ++ (32 ∷ (decimal s ++ (95 ∷ [])))))
            (numparser_init w.parser))
          w
        ≡ some (p + (s + 1) * 32))
      × (finalised
            (add_chars
              (32 ∷ (decimal p ++ (32 ∷ (decimal (s + 96) ++ (95 ∷ [])))))
              (numparser_init w.parser))
            w
          ≡ some (p + (s + 1) * 32))
unfolding numparser_addchar parser_finalize
two_numbers_select p s w p1 p30 s6 d = (
  numbers_select p s w (omega arith) (omega arith) d ∙ ap some fields.1,
  numbers_select p (s + 96) w (omega arith) (omega arith) d ∙ ap some fields.2,
)
  where
    fields :
        (decode_addr w.gpib_addr p 255 ≡ p)
        × (decode_addr w.gpib_addr p s ≡ p + (s + 1) * 32)
        × (decode_addr w.gpib_addr p (s + 96) ≡ p + (s + 1) * 32)
    fields = decode_addr_fields w.gpib_addr p s p1 p30 s6

-- One parameter.
one_number_selects :
    (p : ℕ) (w : World)
    → 1 ≤ p
    → p ≤ 30
    → w.parser.decoding ≡ true
    → finalised (add_chars (32 ∷ (decimal p ++ (95 ∷ []))) (numparser_init w.parser)) w ≡ some p
unfolding numparser_addchar parser_finalize
one_number_selects p w p1 p30 d = ground arith

-- While numbers are decoded, for p from 1 to 30 and s up to 6, in decimal and with the `_` that ends
-- every message: the parameter p of `!addr` alone selects primary address p with no secondary address;
-- the parameters p and s select primary address p and secondary address s, given as s or as s + 96: the
-- low five bits of the stored byte are p, and the upper three are s + 1.
pub parameters_select :
    (p s : ℕ) (w : World)
    → 1 ≤ p
    → p ≤ 30
    → s ≤ 6
    → w.parser.decoding ≡ true
    → (finalised (add_chars (32 ∷ (decimal p ++ (95 ∷ []))) (numparser_init w.parser)) w ≡ some p)
      × (finalised
            (add_chars
              (32 ∷ (decimal p ++ (32 ∷ (decimal s ++ (95 ∷ [])))))
              (numparser_init w.parser))
            w
          ≡ some (p + (s + 1) * 32))
      × (finalised
            (add_chars
              (32 ∷ (decimal p ++ (32 ∷ (decimal (s + 96) ++ (95 ∷ [])))))
              (numparser_init w.parser))
            w
          ≡ some (p + (s + 1) * 32))
parameters_select p s w p1 p30 s6 d =
    let two = two_numbers_select p s w p1 p30 s6 d in
    (one_number_selects p w p1 p30 d, two.0, two.1)

-- While numbers are decoded, for p from 1 to 30: a number is kept in a byte, so that the parameter
-- 256 + p of `!addr` selects address p.
pub large_number_wraps :
    (p : ℕ) (w : World)
    → 1 ≤ p
    → p ≤ 30
    → w.parser.decoding ≡ true
    → finalised (add_chars (32 ∷ (decimal (256 + p) ++ (95 ∷ []))) (numparser_init w.parser)) w
      ≡ some p
unfolding numparser_addchar parser_finalize
large_number_wraps p w p1 p30 d = ground arith
