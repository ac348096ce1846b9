-- ===== src/Device/Identify/Allowed.antt =====
-- The characters that a serial number may be made of.
use usb_gpib.Base.{
  ℕ, Bool, true, false, not, ◌≡◌, refl, List, [], ◌∷◌, ◌&&◌, ◌||◌, ◌==◌, leb, codes, passes_below,
  passes_below_sound, arith,
}
use usb_gpib.Device.Identify.Clean.{is_plain, all_plain}

-- The character is one of these.
abbrev pub is_one_of : List ℕ → ℕ → Bool
is_one_of [] c = false
is_one_of (d ∷ ds) c = c == d || is_one_of ds c

-- A digit, a letter of ASCII or one of the other characters that the host's software takes.
unfoldable pub is_allowed : ℕ → Bool
is_allowed c =
    (leb b'0' c && leb c b'9')
    || (leb b'A' c && leb c b'Z')
    || (leb b'a' c && leb c b'z')
    || is_one_of (codes "!#$%'()+-.;<=>@[]^_`{|}~") c

abbrev pub all_allowed : List ℕ → Bool
all_allowed [] = true
all_allowed (c ∷ cs) = is_allowed c && all_allowed cs

plain_table : passes_below 127 (λ c. not (is_plain c) || is_allowed c) ≡ true
unfolding passes_below is_allowed
plain_table = refl

from_table : (p q : Bool) → (not p || q) ≡ true → p ≡ true → q ≡ true
from_table true q h k = h
from_table false q h k = cc

is_plain_lem : (c : ℕ) → is_plain c ≡ true → is_allowed c ≡ true
is_plain_lem c h =
    from_table (is_plain c) (is_allowed c)
      (passes_below_sound 127 (λ d. not (is_plain d) || is_allowed d) c plain_table
        (ground (arith, h)))
      h

-- Both of two tests, from both of two that are stronger.
both :
    (a b c d : Bool)
    → (a ≡ true → c ≡ true)
    → (b ≡ true → d ≡ true)
    → (a && b) ≡ true
    → (c && d) ≡ true
both true b c d h k x = rw (h refl) (k x)
both false b c d h k x = cc

pub all_plain_lem : (cs : List ℕ) → all_plain cs ≡ true → all_allowed cs ≡ true
all_plain_lem [] h = refl
all_plain_lem (c ∷ cs) h =
    both (is_plain c) (all_plain cs) (is_allowed c) (all_allowed cs) (is_plain_lem c)
      (all_plain_lem cs) h
