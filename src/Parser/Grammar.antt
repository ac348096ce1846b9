-- ===== src/Parser/Grammar.antt =====
-- The commands as text: what the tree of miniparser.c was generated from.
pub mod Nodes
mod Short
mod Autoid
mod Term
mod Strings
pub mod Feed
use usb_gpib.Base.{
  ℕ, zero, suc, Bool, true, false, Option, none, some, List, [], ◌∷◌, ◌++◌, ◌&&◌, ◌==◌,
  if◌then◌else◌, codes,
}

-- Text and number of each command, as in the comments of the generated enumeration.
abbrev pub grammar : List (List ℕ × ℕ)
grammar =
    (codes "autoid on", 0)
    ∷ (codes "autoid off", 1)
    ∷ (codes "autoid slow_", 2)
    ∷ (codes "autoid slower", 3)
    ∷ (codes "autoid slowest", 4)
    ∷ (codes "autoid?", 5)
    ∷ (codes "term cr", 6)
    ∷ (codes "term lf", 7)
    ∷ (codes "term eoi", 8)
    ∷ (codes "term?", 9)
    ∷ (codes "term store", 10)
    ∷ (codes "ver?", 11)
    ∷ (codes "0000", 12)
    ∷ (codes "0001", 13)
    ∷ (codes "0100", 14)
    ∷ (codes "0101", 15)
    ∷ (codes "0102", 16)
    ∷ (codes "addr", 17)
    ∷ (codes "reset", 18)
    ∷ (codes "string short", 19)
    ∷ (codes "string normal", 20)
    ∷ (codes "string?", 21)
    ∷ []

-- What is left of a command after the text typed so far, if it begins with that text.
abbrev pub rest_after : List ℕ → List ℕ → Option (List ℕ)
rest_after [] cmd = some cmd
rest_after (c ∷ t) [] = none
rest_after (c ∷ t) (d ∷ cmd) = if c == d then rest_after t cmd else none

-- What one more character does: the text is no beginning of a command, it is one, or it is a whole
-- command.
pub data Verdict : Type 0 where
  restart : Verdict
  more : List ℕ → Verdict
  whole : ℕ → Verdict

abbrev pub is_nil : List ℕ → Bool
is_nil [] = true
is_nil (c ∷ t) = false

-- The first command that begins with the text decides.
abbrev pub recognise : List (List ℕ × ℕ) → List ℕ → Verdict
recognise [] t = restart
recognise ((cmd, k) ∷ g) t = elim (rest_after t cmd) [
  | none ↦ recognise g t
  | some left ↦ if is_nil left then whole k else more t
]
