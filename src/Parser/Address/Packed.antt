-- ===== src/Parser/Address/Packed.antt =====
-- The address as a byte: `decode_addr` of miniparser.c.
use usb_gpib.Base.{
  ℕ, Bool, true, ◌≡◌, refl, ◌+◌, ◌-◌, ◌*◌, ◌%◌, ◌≤◌, ◌<◌, ◌==◌, ==_iff, bit_or, arith, passes_below,
  passes_below_sound,
}
use usb_gpib.Parser.{decode_addr}

-- Packing a primary and a secondary address needs no carry.
bit_or_fields : ℕ → Bool
bit_or_fields k = passes_below 32 (λ p. bit_or p (k * 32) == p + k * 32)

bit_or_table : passes_below 8 bit_or_fields ≡ true
unfolding passes_below bit_or_fields
bit_or_table = refl

pub bit_or_fields_lem : (p k : ℕ) → p < 32 → k < 8 → bit_or p (k * 32) ≡ p + k * 32
unfolding bit_or_fields
bit_or_fields_lem p k hp hk = (==_iff _ _).0 (
    passes_below_sound 32 (λ q. bit_or q (k * 32) == q + k * 32) p
      (passes_below_sound 8 bit_or_fields k bit_or_table hk) hp)

-- A stored address: a primary address 1 to 30 in the low five bits, and a byte in all.
pub record IsAddress (a : ℕ) : Type 0 where
  pub byte : a < 256
  pub primary_low : 1 ≤ a % 32
  pub primary_high : a % 32 ≤ 30

-- Whatever the two numbers are, what `parser_finalize` makes of them and of a valid old address is a
-- valid address: a byte whose low five bits are 1 to 30.
pub decode_addr-IsAddress :
    (old paddr saddr : ℕ) → IsAddress old → IsAddress (decode_addr old paddr saddr)
decode_addr-IsAddress old paddr saddr h = ground (
  arith,
  bit_or_fields_lem paddr (saddr + 1),
  bit_or_fields_lem paddr (saddr - 96 + 1),
  bit_or_fields_lem paddr (saddr + 96 - 96 + 1),
)

-- A primary address alone, or with a secondary address given as 0 to 6 or 96 to 102, is stored so
-- that its fields can be read back.
pub decode_addr_fields :
    (old p s : ℕ)
    → 1 ≤ p
    → p ≤ 30
    → s ≤ 6
    → (decode_addr old p 255 ≡ p)
      × (decode_addr old p s ≡ p + (s + 1) * 32)
      × (decode_addr old p (s + 96) ≡ p + (s + 1) * 32)
decode_addr_fields old p s p1 p30 s6 = ground (arith, bit_or_fields_lem p (s + 96 - 96 + 1))
