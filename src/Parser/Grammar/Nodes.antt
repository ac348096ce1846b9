-- ===== src/Parser/Grammar/Nodes.antt =====
-- The nodes of the tree in Parser/Table.antt: the offset of each and the text that leads to it, and
-- what a node must do to implement the grammar.
use usb_gpib.Base.{
  ℕ, Bool, true, false, Option, none, some, ◌≡◌, refl, List, [], ◌∷◌, ◌++◌, ◌&&◌, ◌==◌,
  if◌then◌else◌, codes, Bool-cases, inl, inr, arith,
}
use usb_gpib.State.{World}
use usb_gpib.Exec.{M, pure, modify, ◌>>◌}
use usb_gpib.Parser.{parser_add_lower, parser_reset, goto, numparser_init, set_decoding}
use usb_gpib.Parser.Commands.{dispatch}
use usb_gpib.Parser.Grammar.{grammar, Verdict, restart, more, whole, recognise}

abbrev pub autoid_nodes : List (ℕ × List ℕ)
autoid_nodes =
    (18, codes "au")
    ∷ (21, codes "aut")
    ∷ (24, codes "auto")
    ∷ (27, codes "autoi")
    ∷ (30, codes "autoid")
    ∷ (35, codes "autoid ")
    ∷ (40, codes "autoid o")
    ∷ (45, codes "autoid of")
    ∷ (48, codes "autoid s")
    ∷ (51, codes "autoid sl")
    ∷ (54, codes "autoid slo")
    ∷ (57, codes "autoid slow")
    ∷ (62, codes "autoid slowe")
    ∷ (67, codes "autoid slowes")
    ∷ []

abbrev pub short_nodes : List (ℕ × List ℕ)
short_nodes =
    (0, codes "")
    ∷ (13, codes "a")
    ∷ (70, codes "ad")
    ∷ (73, codes "add")
    ∷ (123, codes "v")
    ∷ (126, codes "ve")
    ∷ (129, codes "ver")
    ∷ (132, codes "0")
    ∷ (137, codes "00")
    ∷ (140, codes "000")
    ∷ (145, codes "01")
    ∷ (148, codes "010")
    ∷ (155, codes "r")
    ∷ (158, codes "re")
    ∷ (161, codes "res")
    ∷ (164, codes "rese")
    ∷ []

abbrev pub term_nodes : List (ℕ × List ℕ)
term_nodes =
    (76, codes "t")
    ∷ (79, codes "te")
    ∷ (82, codes "ter")
    ∷ (85, codes "term")
    ∷ (90, codes "term ")
    ∷ (99, codes "term c")
    ∷ (102, codes "term l")
    ∷ (105, codes "term e")
    ∷ (108, codes "term eo")
    ∷ (111, codes "term s")
    ∷ (114, codes "term st")
    ∷ (117, codes "term sto")
    ∷ (120, codes "term stor")
    ∷ []

abbrev pub string_nodes : List (ℕ × List ℕ)
string_nodes =
    (167, codes "s")
    ∷ (170, codes "st")
    ∷ (173, codes "str")
    ∷ (176, codes "stri")
    ∷ (179, codes "strin")
    ∷ (182, codes "string")
    ∷ (187, codes "string ")
    ∷ (192, codes "string s")
    ∷ (195, codes "string sh")
    ∷ (198, codes "string sho")
    ∷ (201, codes "string shor")
    ∷ (204, codes "string n")
    ∷ (207, codes "string no")
    ∷ (210, codes "string nor")
    ∷ (213, codes "string norm")
    ∷ (216, codes "string norma")
    ∷ []

unfoldable pub nodes : List (ℕ × List ℕ)
nodes = short_nodes ++ (autoid_nodes ++ (term_nodes ++ string_nodes))

abbrev pub same : List ℕ → List ℕ → Bool
same [] [] = true
same (c ∷ t) (d ∷ u) = (c == d) && same t u
same _ _ = false

-- The offset of the node that a text leads to.
abbrev pub find : List (ℕ × List ℕ) → List ℕ → Option ℕ
find [] t = none
find ((p, u) ∷ ns) t = if same u t then some p else find ns t

abbrev pub offset : List ℕ → ℕ
offset t = elim (find nodes t) [ none ↦ 0 | some p ↦ p ]

-- Every text that the grammar goes on from has a node.
abbrev pub is_known : List ℕ → Bool
is_known t = elim (find nodes t) [ none ↦ false | some p ↦ true ]

abbrev pub known_verdict : Verdict → Bool
known_verdict (more t) = is_known t
known_verdict _ = true

-- The parser at a node, outside the decoding of an address.
abbrev pub at_ps : ℕ → World → World
at_ps p w = record w { parser = record (w.parser) { ps = p; decoding = false } }

-- The step that a verdict calls for. After `addr` the numbers are decoded, with the table pointer
-- left behind its entry.
abbrev pub obey : Verdict → M Bool
obey restart = do parser_reset; pure false
obey (more t) = do goto (offset t); pure false
obey (whole k) =
    if k == 17
    then (do
      goto 76
      set_decoding true
      modify (λ w. record w { parser = numparser_init w.parser })
      pure false)
    else (do dispatch k; parser_reset; pure true)

-- The table's node at `p` does what the grammar says for the text `t`, and leads only to nodes.
abbrev pub Implements : ℕ × List ℕ → Type 0
Implements (p, t) =
    (ch : ℕ) (w : World)
    → (parser_add_lower ch (at_ps p w) ≡ obey (recognise grammar (t ++ (ch ∷ []))) (at_ps p w))
      × (known_verdict (recognise grammar (t ++ (ch ∷ []))) ≡ true)

abbrev pub All {ℓ κ} : {A : Type ℓ} → (A → Type κ) → List A → Type κ
All P [] = Unit
All P (x ∷ xs) = P x × All P xs

pub All-append {ℓ κ} :
    {A : Type ℓ} (P : A → Type κ) (xs ys : List A) → All P xs → All P ys → All P (xs ++ ys)
All-append P [] ys hx hy = hy
All-append P (x ∷ xs) ys hx hy = (hx.0, All-append P xs ys hx.1 hy)

pub eq_of_same : (t u : List ℕ) → same t u ≡ true → t ≡ u
eq_of_same [] [] h = refl
eq_of_same [] (d ∷ u) h = cc
eq_of_same (c ∷ t) [] h = cc
eq_of_same (c ∷ t) (d ∷ u) h = ground (arith, eq_of_same t u)

-- What holds of every node holds of the node that is found.
pub All-find :
    (P : ℕ × List ℕ → Type 0) (ns : List (ℕ × List ℕ)) (t : List ℕ) (p : ℕ)
    → All P ns
    → find ns t ≡ some p
    → P (p, t)
All-find P [] t p h e = cc
All-find P ((q, u) ∷ ns) t p h e = elim (Bool-cases (same u t)) [
  | inl found ↦ let q_eq : q ≡ p = ground arith in rw (← q_eq, ← eq_of_same u t found) (h.0)
  | inr other ↦ All-find P ns t p h.1 (ground arith)
]
