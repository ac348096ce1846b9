-- ===== src/Device/Identify/Clean.antt =====
-- The characters that a serial number is made of.
use usb_gpib.Base.{
  ℕ, zero, suc, Bool, true, false, not, ◌≡◌, refl, inl, inr, List, [], ◌∷◌, ◌++◌, ◌≤◌, ◌<◌, ◌&&◌,
  ◌||◌, ◌==◌, ltb, length, length-append, if◌then◌else◌, Bool-cases, arith,
}
use usb_gpib.State.{World, Env}
use usb_gpib.Exec.{M, pure, bind, Ensures, Ensures-bind}
use usb_gpib.Gpib.Timeouts.{is_timedout, main_countdown, countdown-IsWatch}
use usb_gpib.Gpib.Handshake.{gpib_readdat_quick}
use usb_gpib.Gpib.Handshake.Received.{Read, readdat-Read}
use usb_gpib.Gpib.Commands.{gpib_readdat}
use usb_gpib.Device.Identify.{
  max_serial, is_special, is_printable, replace_if, idn_store, idn_prev, id_store, idn_rounds,
  id_rounds,
}

-- A printable character that is not special to the host's software.
abbrev pub is_plain : ℕ → Bool
is_plain c = is_printable c && not (is_special c)

abbrev pub all_plain : List ℕ → Bool
all_plain [] = true
all_plain (c ∷ cs) = is_plain c && all_plain cs

pub all_plain-append :
    (cs ds : List ℕ) → all_plain cs ≡ true → all_plain ds ≡ true → all_plain (cs ++ ds) ≡ true
all_plain-append [] ds h k = k
all_plain-append (c ∷ cs) ds h k = ground (arith, all_plain-append cs ds)

replace_plain :
    (c : ℕ)
    → is_printable (replace_if (is_special c) c) ≡ true
    → is_plain (replace_if (is_special c) c) ≡ true
replace_plain c h = elim (Bool-cases (is_special c)) [
  | inl special ↦ rw special refl
  | inr plain ↦ ground arith
]

-- At most so many characters, all of them plain.
abbrev pub IsClean : List ℕ → Type 0
IsClean cs = (all_plain cs ≡ true) × (length cs ≤ max_serial)

snoc-IsClean :
    (b : Bool) (c : ℕ) (cs : List ℕ)
    → all_plain cs ≡ true
    → length cs < max_serial
    → (b ≡ true → is_plain c ≡ true)
    → IsClean (if b then cs ++ (c ∷ []) else cs)
snoc-IsClean true c cs h lt ok = (
  all_plain-append cs (c ∷ []) h (rw (ok refl) refl),
  omega (arith, length-append cs (c ∷ []), lt),
)
snoc-IsClean false c cs h lt ok = (h, omega (arith, lt))

id_store-IsClean :
    (c : ℕ) (cs : List ℕ) → all_plain cs ≡ true → length cs < max_serial → IsClean (id_store c cs)
id_store-IsClean c cs h lt =
    snoc-IsClean (is_printable (replace_if (is_special c) c)) (replace_if (is_special c) c) cs h lt
      (replace_plain c)

idn_plain :
    (prev c : ℕ)
    → (is_printable (idn_prev c) && not ((is_special c || c == b'_') && prev == b'_')) ≡ true
    → is_plain (idn_prev c) ≡ true
idn_plain prev c h = elim (Bool-cases (is_special c || c == b'_')) [
  | inl special ↦ rw special refl
  | inr plain ↦ ground arith
]

idn_store-IsClean :
    (prev c : ℕ) (cs : List ℕ)
    → all_plain cs ≡ true
    → length cs < max_serial
    → IsClean (idn_store prev c cs)
idn_store-IsClean prev c cs h lt = snoc-IsClean _ (idn_prev c) cs h lt (idn_plain prev c)

-- The loops go on where there is room.
room : (n : ℕ) (b : Bool) → (ltb n max_serial && b) ≡ true → n < max_serial
room n b h = ground arith

module _ (e : Env) where
  -- The device's character, and whatever follows it.
  hear_one :
      (Q : List ℕ × Bool → World → Type 0) (k : ℕ × Bool × Bool → M (List ℕ × Bool)) (w : World)
      → ((r : ℕ × Bool × Bool) (u : World) → Ensures Q (k r u))
      → Ensures Q (bind (gpib_readdat e is_timedout w) k)
  unfolding gpib_readdat
  hear_one Q k w h =
      Ensures-bind (Read e (countdown-IsWatch main_countdown) w) Q
        (gpib_readdat_quick e is_timedout true w) k
        (readdat-Read e (countdown-IsWatch main_countdown) true w) λ r u _. h r u

  go_on :
      (n : ℕ) (again : Bool) (cs : List ℕ) (comma : Bool) (m : M (List ℕ × Bool)) (u : World)
      → IsClean cs
      → (again ≡ true → length cs < max_serial → Ensures (λ r u. IsClean r.0) (m u))
      → (again ≡ true → length cs < max_serial)
      → Ensures
          (λ r u. IsClean r.0)
          (elim again as (λ _. M (List ℕ × Bool)) [ true ↦ m | false ↦ pure (cs, comma) ] u)
  go_on n true cs comma m u clean h lt = h refl (lt refl)
  go_on n false cs comma m u clean h lt = clean

  -- From plain characters with room for more, the answer to `*IDN?` that is stored has at most fifty
  -- characters, all printable and none of them special to the host's software.
  pub idn_rounds-IsClean :
      (n prev : ℕ) (cs : List ℕ) (comma : Bool) (w : World)
      → all_plain cs ≡ true
      → length cs < max_serial
      → Ensures (λ r u. IsClean r.0) (idn_rounds e n prev cs comma w)
  unfolding idn_rounds
  idn_rounds-IsClean zero prev cs comma w h lt = tt
  idn_rounds-IsClean (suc n) prev cs comma w h lt =
      hear_one (λ r u. IsClean r.0) _ w
        λ r u.
          let clean = idn_store-IsClean prev r.0 cs h lt in
          let cs' = idn_store prev r.0 cs in
          let comma' = comma || r.0 == b',' in
          let rest = not r.2 && not r.1 in
          go_on n (ltb (length cs') max_serial && rest) cs' comma'
            (idn_rounds e n (idn_prev r.0) cs' comma') u clean
            (λ t lt'. idn_rounds-IsClean n (idn_prev r.0) cs' comma' u clean.0 lt')
            λ t. room (length cs') rest t

  -- From plain characters with room for more, the answer to `ID?` that is stored has at most fifty
  -- characters, all printable and none of them special to the host's software.
  pub id_rounds-IsClean :
      (n : ℕ) (cs : List ℕ) (comma : Bool) (w : World)
      → all_plain cs ≡ true
      → length cs < max_serial
      → Ensures (λ r u. IsClean r.0) (id_rounds e n cs comma w)
  unfolding id_rounds
  id_rounds-IsClean zero cs comma w h lt = tt
  id_rounds-IsClean (suc n) cs comma w h lt =
      hear_one (λ r u. IsClean r.0) _ w
        λ r u.
          let clean = id_store-IsClean r.0 cs h lt in
          let cs' = id_store r.0 cs in
          let comma' = comma || r.0 == b',' in
          let rest = not r.2 && not r.1 && not (r.0 == 13) && not (r.0 == 10) in
          go_on n (ltb (length cs') max_serial && rest) cs' comma' (id_rounds e n cs' comma') u
            clean (λ t lt'. id_rounds-IsClean n cs' comma' u clean.0 lt')
            λ t. room (length cs') rest t
