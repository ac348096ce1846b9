-- ===== src/Exec.antt =====
-- C functions over the firmware's state: a run returns, waits for the bus for longer than it is
-- followed, reads outside an array, or leaves the program (a jump to the boot loader, a reset).
use usb_gpib.Base.{◌≡◌, refl, Bool, true, false}
use usb_gpib.State.{World}

pub data Outcome (A : Type 0) : Type 0 where
  ret : A → World → Outcome A
  waiting : Outcome A
  fault : Outcome A
  halted : Outcome A

abbrev pub M : Type 0 → Type 0
M A = World → Outcome A

abbrev pub pure : {A : Type 0} → A → M A
pure a w = ret a w

-- What follows a run that returns.
abbrev pub bind : {A B : Type 0} → Outcome A → (A → M B) → Outcome B
bind (ret a w) f = f a w
bind waiting f = waiting
bind fault f = fault
bind halted f = halted

infixl 5 ◌>>=◌ ◌>>◌
abbrev pub ◌>>=◌ : {A B : Type 0} → M A → (A → M B) → M B
◌>>=◌ m f w = bind (m w) f

abbrev pub ◌>>◌ : {A B : Type 0} → M A → M B → M B
m >> k = m >>= λ _. k

abbrev pub gets : {A : Type 0} → (World → A) → M A
gets f w = ret (f w) w

abbrev pub modify : (World → World) → M (Unit {0})
modify f w = ret tt (f w)

abbrev pub skip : M (Unit {0})
skip w = ret tt w

-- `if (b) m;`
abbrev pub when : Bool → M (Unit {0}) → M (Unit {0})
when true m = m
when false m = skip

-- `if (!timedout) timedout = m;`
abbrev pub unless : Bool → M Bool → M Bool
unless true m = pure true
unless false m = m

-- Where the run returns, the postcondition holds of the result; it never reads out of bounds.
abbrev pub Ensures : {A : Type 0} → (A → World → Type 0) → Outcome A → Type 0
Ensures Q (ret a w) = Q a w
Ensures Q waiting = Unit {0}
Ensures Q fault = ⊥
Ensures Q halted = Unit {0}

-- The run does return, and the postcondition holds of the result.
abbrev pub Returns : {A : Type 0} → (A → World → Type 0) → Outcome A → Type 0
Returns Q (ret a w) = Q a w
Returns Q _ = ⊥

pub bind_assoc :
    {A B C : Type 0} (o : Outcome A) (f : A → M B) (g : B → M C)
    → bind (bind o f) g ≡ bind o (λ a w. bind (f a w) g)
bind_assoc (ret a w) f g = refl
bind_assoc waiting f g = refl
bind_assoc fault f g = refl
bind_assoc halted f g = refl

pub Ensures-bind :
    {A B : Type 0} (P : A → World → Type 0) (Q : B → World → Type 0) (o : Outcome A) (f : A → M B)
    → Ensures P o
    → ((a : A) (w : World) → P a w → Ensures Q (f a w))
    → Ensures Q (bind o f)
Ensures-bind P Q (ret a w) f h k = k a w h
Ensures-bind P Q waiting f h k = tt
Ensures-bind P Q fault f h k = h
Ensures-bind P Q halted f h k = tt

pub Returns-bind :
    {A B : Type 0} (P : A → World → Type 0) (Q : B → World → Type 0) (o : Outcome A) (f : A → M B)
    → Returns P o
    → ((a : A) (w : World) → P a w → Returns Q (f a w))
    → Returns Q (bind o f)
Returns-bind P Q (ret a w) f h k = k a w h
Returns-bind P Q waiting f h k = h
Returns-bind P Q fault f h k = h
Returns-bind P Q halted f h k = h

pub Ensures-weaken :
    {A : Type 0} (P Q : A → World → Type 0) (o : Outcome A)
    → Ensures P o
    → ((a : A) (w : World) → P a w → Q a w)
    → Ensures Q o
Ensures-weaken P Q (ret a w) h k = k a w h
Ensures-weaken P Q waiting h k = tt
Ensures-weaken P Q fault h k = h
Ensures-weaken P Q halted h k = tt

pub Returns-weaken :
    {A : Type 0} (P Q : A → World → Type 0) (o : Outcome A)
    → Returns P o
    → ((a : A) (w : World) → P a w → Q a w)
    → Returns Q o
Returns-weaken P Q (ret a w) h k = k a w h
Returns-weaken P Q waiting h k = h
Returns-weaken P Q fault h k = h
Returns-weaken P Q halted h k = h

pub Ensures-and :
    {A : Type 0} (P Q : A → World → Type 0) (o : Outcome A)
    → Ensures P o
    → Ensures Q o
    → Ensures (λ a w. P a w × Q a w) o
Ensures-and P Q (ret a w) h k = (h, k)
Ensures-and P Q waiting h k = tt
Ensures-and P Q fault h k = h
Ensures-and P Q halted h k = tt

-- A run that returns, with what it ensures.
pub Returns-Ensures :
    {A : Type 0} (P Q : A → World → Type 0) (o : Outcome A)
    → Returns P o
    → Ensures Q o
    → Returns Q o
Returns-Ensures P Q (ret a w) h k = k
Returns-Ensures P Q waiting h k = h
Returns-Ensures P Q fault h k = h
Returns-Ensures P Q halted h k = h

-- Of a run that returns, less is said.
pub Ensures-Returns :
    {A : Type 0} (P Q : A → World → Type 0) (o : Outcome A)
    → Returns P o
    → ((a : A) (w : World) → P a w → Q a w)
    → Ensures Q o
Ensures-Returns P Q (ret a w) h k = k a w h
Ensures-Returns P Q waiting h k = tt
Ensures-Returns P Q fault h k = absurd h
Ensures-Returns P Q halted h k = tt

-- Every run returns.
abbrev pub Returning : {A : Type 0} → M A → Type 0
Returning m = (w : World) → Returns (λ a u. Unit {0}) (m w)

pub Returning-bind :
    {A B : Type 0} (m : M A) (k : A → M B)
    → Returning m
    → ((a : A) → Returning (k a))
    → Returning (m >>= k)
Returning-bind m k h hk w =
    Returns-bind (λ a u. Unit {0}) (λ b u. Unit {0}) (m w) k (h w) λ a u _. hk a u

pub Returning-when : (b : Bool) (m : M (Unit {0})) → Returning m → Returning (when b m)
Returning-when true m h = h
Returning-when false m h = λ w. tt

pub Returning-unless : (b : Bool) (m : M Bool) → Returning m → Returning (unless b m)
Returning-unless true m h = λ w. tt
Returning-unless false m h = h
