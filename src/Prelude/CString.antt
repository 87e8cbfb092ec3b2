-- ===== src/Prelude/CString.antt =====
-- C strings. A `char *` that is read as text is the list of its bytes before the terminating zero;
-- a buffer is the list of all its bytes, zeros included.
use Prim.Native.Char.{code}
use Prim.Native.String.{String}
use Prim.Native.Nat.{ℕ, zero, suc}
use mathlib.Core.Path.{◌≡◌, refl, ap₂}
use mathlib.Core.Bool.{Bool, true, false, ◌&&◌}
use mathlib.Core.Option.{Option, none, some}
use mathlib.Core.List.{List, [], ◌∷◌}
use native.Mathlib.Omega.{arith}
use monitor_node.Prelude.Tests.{◌==◌, ==_iff, &&_true, Bool-cases, if◌then◌else◌}
use monitor_node.Prelude.Lists.{All}
use mathlib.Core.Logic.{inl, inr}

abbrev pub Str : Type 0
Str = List ℕ

-- The bytes of an ASCII literal.
abbrev pub c_str : String → Str
c_str String.[] = []
c_str (String.◌∷◌ c s) = code c ∷ c_str s

-- `strcmp(a, b) == 0`
unfoldable pub strcmp_eq : Str → Str → Bool
strcmp_eq [] [] = true
strcmp_eq (a ∷ s) (b ∷ t) = a == b && strcmp_eq s t
strcmp_eq _ _ = false

pub strcmp_eq_refl : (s : Str) → strcmp_eq s s ≡ true
unfolding strcmp_eq
strcmp_eq_refl [] = refl
strcmp_eq_refl (a ∷ s) = ground (arith, strcmp_eq_refl s)

pub strcmp_eq-eq : (s t : Str) → strcmp_eq s t ≡ true → s ≡ t
unfolding strcmp_eq
strcmp_eq-eq [] [] h = refl
strcmp_eq-eq [] (b ∷ t) h = cc
strcmp_eq-eq (a ∷ s) [] h = cc
strcmp_eq-eq (a ∷ s) (b ∷ t) h =
    let p = &&_true (a == b) (strcmp_eq s t) h in
    ap₂ (λ x y. x ∷ y) ((==_iff a b).0 p.0) (strcmp_eq-eq s t p.1)

-- A text that is one literal is not another.
pub strcmp_eq-other :
    (s a b : Str) → strcmp_eq a b ≡ false → strcmp_eq s a ≡ true → strcmp_eq s b ≡ false
strcmp_eq-other s a b h e = ground (arith, strcmp_eq-eq s a)

-- `strlen` of a buffer: where its first zero stands; `none` if it holds none, so that the read
-- would leave the buffer.
unfoldable pub strlen : List ℕ → Option ℕ
strlen [] = none
strlen (zero ∷ s) = some 0
strlen (suc a ∷ s) = elim (strlen s) [ none ↦ none | some n ↦ some (suc n) ]

-- The text at the start of a buffer; `none` if it is not terminated.
unfoldable pub text_at : List ℕ → Option Str
text_at [] = none
text_at (zero ∷ s) = some []
text_at (suc a ∷ s) = elim (text_at s) [ none ↦ none | some t ↦ some (suc a ∷ t) ]

-- The name is one of the array's.
unfoldable pub name_in : Str → List Str → Bool
name_in name [] = false
name_in name (x ∷ xs) = if strcmp_eq name x then true else name_in name xs

-- A name of one array that shares no name with another is not in that one.
pub name_in-disjoint :
    (name : Str) (xs ys : List Str)
    → All (λ x. name_in x ys ≡ false) xs
    → name_in name xs ≡ true
    → name_in name ys ≡ false
name_in-disjoint name [] ys a h = unfold name_in in cc
name_in-disjoint name (x ∷ xs) ys a h = elim (Bool-cases (strcmp_eq name x)) [
  | inl same ↦ rw (strcmp_eq-eq name x same) a.0
  | inr other ↦ name_in-disjoint name xs ys a.1 (unfold name_in in (ground arith))
]
