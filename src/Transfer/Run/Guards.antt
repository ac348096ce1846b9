-- ===== src/Transfer/Run/Guards.antt =====
-- Invariants of runs that may leave the program or read outside an array: of a run that returns, something holds.
use usb_gpib.Base.{Bool, true, false, if◌then◌else◌}
use usb_gpib.State.{World}
use usb_gpib.Exec.{M, Outcome, ret, waiting, fault, halted, bind, when, Ensures, ◌>>=◌}

-- What a run that returns has done.
abbrev pub Partly : {A : Type 0} → (A → World → Type 0) → Outcome A → Type 0
Partly Q (ret a w) = Q a w
Partly Q _ = Unit {0}

pub Partly-bind :
    {A B : Type 0} (P : A → World → Type 0) (Q : B → World → Type 0) (o : Outcome A) (f : A → M B)
    → Partly P o
    → ((a : A) (w : World) → P a w → Partly Q (f a w))
    → Partly Q (bind o f)
Partly-bind P Q (ret a w) f h k = k a w h
Partly-bind P Q waiting f h k = tt
Partly-bind P Q fault f h k = tt
Partly-bind P Q halted f h k = tt

pub Partly-weaken :
    {A : Type 0} (P Q : A → World → Type 0) (o : Outcome A)
    → Partly P o
    → ((a : A) (w : World) → P a w → Q a w)
    → Partly Q o
Partly-weaken P Q (ret a w) h k = k a w h
Partly-weaken P Q waiting h k = tt
Partly-weaken P Q fault h k = tt
Partly-weaken P Q halted h k = tt

pub Partly-Ensures :
    {A : Type 0} (P Q : A → World → Type 0) (o : Outcome A)
    → Ensures P o
    → ((a : A) (w : World) → P a w → Q a w)
    → Partly Q o
Partly-Ensures P Q (ret a w) h k = k a w h
Partly-Ensures P Q waiting h k = tt
Partly-Ensures P Q fault h k = tt
Partly-Ensures P Q halted h k = tt

module _ (I : World → Type 0) where
  -- It keeps the invariant, where it returns.
  abbrev pub Guards : {A : Type 0} → M A → Type 0
  Guards m = (w : World) → I w → Partly (λ _ u. I u) (m w)

  pub Guards-bind :
      {A B : Type 0} (m : M A) (k : A → M B)
      → Guards m
      → ((a : A) → Guards (k a))
      → Guards (m >>= k)
  Guards-bind m k h hk w s = Partly-bind (λ _ u. I u) (λ _ u. I u) (m w) k (h w s) λ a u t. hk a u t

  pub Guards-when : (b : Bool) (m : M (Unit {0})) → Guards m → Guards (when b m)
  Guards-when true m h = h
  Guards-when false m h = λ w s. s

  pub Guards-if :
      {A : Type 0} (b : Bool) (m k : M A) → Guards m → Guards k → Guards (if b then m else k)
  Guards-if true m k h _ = h
  Guards-if false m k _ h = h
