-- ===== src/Gpib/Messages.antt =====
-- The bytes with ATN high that an observer of the bus has seen: what the device is sent of a message.
use usb_gpib.Base.{
  ℕ, Bool, true, false, ◌≡◌, refl, sym, ◌∙◌, ap, List, [], ◌∷◌, ◌++◌, append-nil, ◌==◌, bit_and,
  inl, inr, Bool-cases,
}
use usb_gpib.State.{World, BusEvent, command, message, interface_clear, remote}
use usb_gpib.Exec.{M}
use usb_gpib.Gpib.Timeouts.{IsWatch}
use usb_gpib.Gpib.Sequence.{Ends, IsCut, Shows, Ends-Shows, recoveries}
use usb_gpib.Gpib.Commands.Address.{address_bytes}
use usb_gpib.Gpib.Commands.Poll.{polled}

-- The bytes, each with EOI.
abbrev pub messages : List BusEvent → List (ℕ × Bool)
messages [] = []
messages (command b ∷ bs) = messages bs
messages (message b eoi ∷ bs) = (b, eoi) ∷ messages bs
messages (interface_clear ∷ bs) = messages bs
messages (remote b ∷ bs) = messages bs

pub messages-append : (bs cs : List BusEvent) → messages (bs ++ cs) ≡ messages bs ++ messages cs
messages-append [] cs = refl
messages-append (command b ∷ bs) cs = messages-append bs cs
messages-append (message b eoi ∷ bs) cs = rw (messages-append bs cs)
messages-append (interface_clear ∷ bs) cs = messages-append bs cs
messages-append (remote b ∷ bs) cs = messages-append bs cs

messages-recoveries : (n : ℕ) → messages (recoveries n) ≡ []
messages-recoveries ℕ.zero = refl
messages-recoveries (ℕ.suc n) = messages-recoveries n

front_empty : {A : Type 0} (xs ys : List A) → xs ++ ys ≡ [] → xs ≡ []
front_empty [] ys h = refl
front_empty (x ∷ xs) ys h = cc

-- The device has been sent the same bytes.
abbrev pub SameMessages : World → World → Type 0
SameMessages w u = messages u.gpib.log ≡ messages w.gpib.log

added :
    (w u : World) (bs : List BusEvent)
    → u.gpib.log ≡ w.gpib.log ++ bs
    → messages bs ≡ []
    → SameMessages w u
added w u bs log none =
    ap messages log ∙ (messages-append w.gpib.log bs ∙ rw (none, append-nil) refl)

cut-SameMessages :
    (bs : List BusEvent) (w u : World) → messages bs ≡ [] → IsCut bs w u → SameMessages w u
cut-SameMessages bs w u none c = added w u (c.before ++ recoveries (ℕ.suc c.times)) c.log_eq (
    messages-append c.before (recoveries (ℕ.suc c.times))
    ∙ rw (messages-recoveries (ℕ.suc c.times), append-nil)
        (front_empty (messages c.before) (messages (c.missing ∷ c.rest)) (
          sym (messages-append c.before (c.missing ∷ c.rest))
          ∙ (ap messages (sym c.split) ∙ none))))

-- A sequence of commands adds none, be it cut or not.
pub Shows-SameMessages :
    (bs : List BusEvent) (w u : World) → messages bs ≡ [] → Shows bs w u → SameMessages w u
Shows-SameMessages bs w u none (inl log) = added w u bs log none
Shows-SameMessages bs w u none (inr c) = cut-SameMessages bs w u none c

pub messages-address_bytes : (group addr : ℕ) → messages (address_bytes group addr) ≡ []
messages-address_bytes group addr = elim (Bool-cases (bit_and addr 0xe0 == 0)) [
  | inl primary ↦ rw primary refl
  | inr secondary ↦ rw secondary refl
]

pub messages-polled : (addr : ℕ) → messages (polled addr) ≡ []
messages-polled addr =
    messages-append (address_bytes 0x40 addr) (command 0x19 ∷ command 0x5f ∷ [])
    ∙ rw (messages-address_bytes 0x40 addr) refl

module _ {f : M Bool} (watch : IsWatch f) where
  pub Ends-SameMessages :
      (bs : List BusEvent) (w u : World) (t : Bool)
      → messages bs ≡ []
      → Ends watch bs w t u
      → SameMessages w u
  Ends-SameMessages bs w u t none h = Shows-SameMessages bs w u none (Ends-Shows watch bs w u t h)

  -- One byte: it was seen, or there was a timeout.
  pub Ends-one :
      (b : ℕ) (eoi : Bool) (w u : World) (t : Bool)
      → Ends watch (message b eoi ∷ []) w t u
      → (t ≡ false → messages u.gpib.log ≡ messages w.gpib.log ++ ((b, eoi) ∷ []))
        × (t ≡ true → SameMessages w u)
  Ends-one b eoi w u t h = (
    λ x. ap messages (h.done x) ∙ messages-append w.gpib.log (message b eoi ∷ []),
    λ x. cut_first (h.cut x).0,
  )
    where
      first_empty :
          (xs ys : List BusEvent) (x : BusEvent) → (message b eoi ∷ []) ≡ xs ++ (x ∷ ys) → xs ≡ []
      first_empty [] ys x h = refl
      first_empty (y ∷ []) ys x h = cc
      first_empty (y ∷ (z ∷ xs)) ys x h = cc

      cut_first : IsCut (message b eoi ∷ []) w u → SameMessages w u
      cut_first c =
          added w u (c.before ++ recoveries (ℕ.suc c.times)) c.log_eq (
            rw (first_empty c.before c.rest c.missing c.split)
              (messages-recoveries (ℕ.suc c.times)))
