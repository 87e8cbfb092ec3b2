-- ===== src/Prelude/Pointer.antt =====
-- Code that can fault: `none` stands for a read through a null pointer or outside of an array.
use mathlib.Core.Option.{Option, none, some}

infixl 5 ◌>>=◌
abbrev pub ◌>>=◌ {ℓ κ} : {A : Type ℓ} {B : Type κ} → Option A → (A → Option B) → Option B
none >>= f = none
some a >>= f = f a
