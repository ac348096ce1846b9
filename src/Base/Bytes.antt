-- ===== src/Base/Bytes.antt =====
-- Bytes of a text, equality of byte strings, and checks of every value below a bound.
use Prim.Native.Nat.{ℕ, zero, suc, ◌<◌}
use Prim.Native.Char.{code}
use Prim.Native.String.{String}
use mathlib.Core.Path.{◌≡◌}
use mathlib.Core.List.{List, [], ◌∷◌}
use mathlib.Core.Bool.{Bool, true, false}
use native.Mathlib.Omega.{arith}
use usb_gpib.Base.Compare.{if◌then◌else◌}

-- The code points of a text: its bytes, if it is ASCII.
abbrev pub codes : String → List ℕ
codes String.[] = []
codes (String.◌∷◌ c s) = code c ∷ codes s

-- The test is passed by every number below the bound; in closed form it is run.
unfoldable pub passes_below : ℕ → (ℕ → Bool) → Bool
passes_below zero test = true
passes_below (suc bound) test = if test bound then passes_below bound test else false

-- What the run of the test has shown.
pub passes_below_sound :
    (bound : ℕ) (test : ℕ → Bool) (x : ℕ)
    → passes_below bound test ≡ true
    → x < bound
    → test x ≡ true
unfolding passes_below
passes_below_sound zero test x run below = absurd (omega arith)
passes_below_sound (suc bound) test x run below = ground (arith, passes_below_sound bound test x)
