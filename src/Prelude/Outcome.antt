-- ===== src/Prelude/Outcome.antt =====
-- What holds of the value of an optional result.
use mathlib.Core.Path.{◌≡◌, refl}
use mathlib.Core.Bool.{Bool, true, false}
use mathlib.Core.Option.{Option, none, some}
use monitor_node.Prelude.Tests.{if◌then◌else◌}
use monitor_node.Prelude.Pointer.{◌>>=◌}

-- The value, if there is one, has the property.
abbrev pub Yields : {A : Type 0} → (A → Type 0) → Option A → Type 0
Yields P none = Unit
Yields P (some a) = P a

pub Yields-bind :
    {A B : Type 0} (Q : B → Type 0) (o : Option A) (g : A → Option B)
    → ((a : A) → Yields Q (g a))
    → Yields Q (o >>= g)
Yields-bind Q none g h = tt
Yields-bind Q (some a) g h = h a

pub Yields-then :
    {A B : Type 0} (P : A → Type 0) (Q : B → Type 0) (o : Option A) (g : A → Option B)
    → Yields P o
    → ((a : A) → P a → Yields Q (g a))
    → Yields Q (o >>= g)
Yields-then P Q none g p h = tt
Yields-then P Q (some a) g p h = h a p

pub Yields-if :
    {A : Type 0} (Q : A → Type 0) (b : Bool) (x y : Option A)
    → Yields Q x
    → Yields Q y
    → Yields Q (if b then x else y)
Yields-if Q true x y p q = p
Yields-if Q false x y p q = q

-- The same with what is known in each case.
pub Yields-bind_known :
    {A B : Type 0} (Q : B → Type 0) (o : Option A) (g : A → Option B)
    → ((a : A) → o ≡ some a → Yields Q (g a))
    → Yields Q (o >>= g)
Yields-bind_known Q none g h = tt
Yields-bind_known Q (some a) g h = h a refl

pub Yields-if_known :
    {A : Type 0} (Q : A → Type 0) (b : Bool) (x y : Option A)
    → (b ≡ true → Yields Q x)
    → (b ≡ false → Yields Q y)
    → Yields Q (if b then x else y)
Yields-if_known Q true x y p q = p refl
Yields-if_known Q false x y p q = q refl
