-- ===== src/InfoManager/Configuration/Objects.antt =====
-- What an object of src/base/info_manager.c that is made member by member holds, from what cJSON's
-- documentation says of its functions.
use monitor_node.Prelude.{
  ℕ, ◌+◌, ◌==◌, ◌&&◌, ◌<◌, ltb, ◌≡◌, refl, sym, ap, ◌∙◌, ℤ, pos, Str, Bool, true, false, Option,
  none, some, List, [], ◌∷◌, if◌then◌else◌, ◌>>=◌,
}
use monitor_node.InfoManager.Configuration.Items.{
  Cjson, Leaf, text, number, Member, leaf, nested, leaf_item, add_leaves, member_item, add_members,
}

-- The first of the two, if there is one.
abbrev pub or_else : {A : Type 0} → Option A → Option A → Option A
or_else none b = b
or_else (some a) b = some a

-- Names are compared ignoring the case of ASCII letters.
abbrev lower : ℕ → ℕ
lower a = if ltb 64 a && ltb a 91 then a + 32 else a

unfoldable pub same_name : Str → Str → Bool
same_name [] [] = true
same_name (a ∷ s) (b ∷ t) = lower a == lower b && same_name s t
same_name _ _ = false

-- A string or number becomes an item that has it as its value, a null pointer becomes none; an item
-- is found under the name that it was first added with, and adding none changes nothing.
pub record Documented (c : Cjson) : Type 0 where
  pub empty : c.Item
  pub string_item : Str → c.Item
  pub number_item : ℤ → c.Item
  pub created : c.create_object ≡ some empty
  pub null_string : c.create_string none ≡ none
  pub string_created : (s : Str) → c.create_string (some s) ≡ some (string_item s)
  pub number_created : (n : ℤ) → c.create_number n ≡ some (number_item n)
  pub string_value : (s : Str) → c.value_string (string_item s) ≡ some s
  pub number_value : (n : ℤ) → c.value_number (number_item n) ≡ some n
  pub string_no_number : (s : Str) → c.value_number (string_item s) ≡ none
  pub number_no_string : (n : ℤ) → c.value_string (number_item n) ≡ none
  pub string_no_object : (s : Str) → c.is_object (string_item s) ≡ false
  pub number_no_object : (n : ℤ) → c.is_object (number_item n) ≡ false
  pub object_no_string : (o : c.Item) → c.is_object o ≡ true → c.value_string o ≡ none
  pub get_empty : (k : Str) → c.get_object_item empty k ≡ none
  pub add_none : (o : c.Item) (j : Str) → c.add o j none ≡ o
  pub get_add :
      (o v : c.Item) (j k : Str)
      → c.get_object_item (c.add o j (some v)) k
        ≡ or_else (c.get_object_item o k) (if same_name j k then some v else none)
  pub empty_is_object : c.is_object empty ≡ true
  pub add_is_object : (o v : c.Item) (j : Str) → c.is_object (c.add o j (some v)) ≡ c.is_object o
  pub unsigned_char_lem : (n : ℕ) → n < 256 → c.unsigned_char (pos n) ≡ n

or_else_assoc : {A : Type 0} (a b d : Option A) → or_else (or_else a b) d ≡ or_else a (or_else b d)
or_else_assoc none b d = refl
or_else_assoc (some a) b d = refl

or_else-none : {A : Type 0} (a : Option A) → or_else a none ≡ a
or_else-none none = refl
or_else-none (some a) = refl

-- The member of a name in a list of members.
unfoldable pub find_leaf : List (Str × Leaf) → Str → Option Leaf
find_leaf [] k = none
find_leaf ((j, text none) ∷ ls) k = find_leaf ls k
find_leaf ((j, text (some s)) ∷ ls) k =
    or_else (if same_name j k then some (text (some s)) else none) (find_leaf ls k)
find_leaf ((j, number n) ∷ ls) k =
    or_else (if same_name j k then some (number n) else none) (find_leaf ls k)

unfoldable pub find : List (Str × Member) → Str → Option Member
find [] k = none
find ((j, leaf (text none)) ∷ ms) k = find ms k
find ((j, leaf (text (some s))) ∷ ms) k =
    or_else (if same_name j k then some (leaf (text (some s))) else none) (find ms k)
find ((j, leaf (number n)) ∷ ms) k =
    or_else (if same_name j k then some (leaf (number n)) else none) (find ms k)
find ((j, nested ls) ∷ ms) k =
    or_else (if same_name j k then some (nested ls) else none) (find ms k)

bind_found :
    {M I : Type 0} (b : Bool) (m : M) (v : I) (f : M → Option I) (r : Option M)
    → f m ≡ some v
    → or_else (if b then some v else none) (r >>= f)
      ≡ (or_else (if b then some m else none) r >>= f)
bind_found true m v f r e = sym e
bind_found false m v f r e = refl

module _ (c : Cjson) (d : Documented c) where
  added :
      {M : Type 0} (o v : c.Item) (x : Option c.Item) (j k : Str) (m : M) (f : M → Option c.Item)
      (r : Option M)
      → x ≡ some v
      → f m ≡ x
      → or_else (c.get_object_item (c.add o j x) k) (r >>= f)
        ≡ or_else (c.get_object_item o k) (or_else (if same_name j k then some m else none) r >>= f)
  added o v x j k m f r e h =
      ap (λ y. or_else (c.get_object_item (c.add o j y) k) (r >>= f)) e
      ∙ ap (λ y. or_else y (r >>= f)) (d.get_add o v j k)
      ∙ or_else_assoc (c.get_object_item o k) (if same_name j k then some v else none) (r >>= f)
      ∙ ap (or_else (c.get_object_item o k)) (bind_found (same_name j k) m v f r (h ∙ e))

  not_added :
      (o : c.Item) (x : Option c.Item) (j k : Str) (r : Option c.Item)
      → x ≡ none
      → or_else (c.get_object_item (c.add o j x) k) r ≡ or_else (c.get_object_item o k) r
  not_added o x j k r e =
      ap (λ y. or_else (c.get_object_item (c.add o j y) k) r) e
      ∙ ap (λ y. or_else (c.get_object_item y k) r) (d.add_none o j)

  pub get_leaves :
      (ls : List (Str × Leaf)) (o : c.Item) (k : Str)
      → c.get_object_item (add_leaves c o ls) k
        ≡ or_else (c.get_object_item o k) (find_leaf ls k >>= leaf_item c)
  unfolding add_leaves find_leaf leaf_item
  get_leaves [] o k = sym (or_else-none (c.get_object_item o k))
  get_leaves ((j, text none) ∷ ls) o k =
      get_leaves ls (c.add o j (c.create_string none)) k
      ∙ not_added o (c.create_string none) j k (find_leaf ls k >>= leaf_item c) d.null_string
  get_leaves ((j, text (some s)) ∷ ls) o k =
      get_leaves ls (c.add o j (c.create_string (some s))) k
      ∙ added o (d.string_item s) (c.create_string (some s)) j k (text (some s)) (leaf_item c)
          (find_leaf ls k) (d.string_created s) refl
  get_leaves ((j, number n) ∷ ls) o k =
      get_leaves ls (c.add o j (c.create_number n)) k
      ∙ added o (d.number_item n) (c.create_number n) j k (number n) (leaf_item c) (find_leaf ls k)
          (d.number_created n) refl

  pub leaves_is_object :
      (ls : List (Str × Leaf)) (o : c.Item) → c.is_object (add_leaves c o ls) ≡ c.is_object o
  unfolding add_leaves leaf_item
  leaves_is_object [] o = refl
  leaves_is_object ((j, text none) ∷ ls) o =
      leaves_is_object ls (c.add o j (c.create_string none))
      ∙ ap (λ y. c.is_object (c.add o j y)) d.null_string
      ∙ ap c.is_object (d.add_none o j)
  leaves_is_object ((j, text (some s)) ∷ ls) o =
      leaves_is_object ls (c.add o j (c.create_string (some s)))
      ∙ ap (λ y. c.is_object (c.add o j y)) (d.string_created s)
      ∙ d.add_is_object o (d.string_item s) j
  leaves_is_object ((j, number n) ∷ ls) o =
      leaves_is_object ls (c.add o j (c.create_number n))
      ∙ ap (λ y. c.is_object (c.add o j y)) (d.number_created n)
      ∙ d.add_is_object o (d.number_item n) j

  pub get_members :
      (ms : List (Str × Member)) (o : c.Item) (k : Str)
      → c.get_object_item (add_members c o ms) k
        ≡ or_else (c.get_object_item o k) (find ms k >>= member_item c)
  unfolding add_members find leaf_item member_item
  get_members [] o k = sym (or_else-none (c.get_object_item o k))
  get_members ((j, leaf (text none)) ∷ ms) o k =
      get_members ms (c.add o j (c.create_string none)) k
      ∙ not_added o (c.create_string none) j k (find ms k >>= member_item c) d.null_string
  get_members ((j, leaf (text (some s))) ∷ ms) o k =
      get_members ms (c.add o j (c.create_string (some s))) k
      ∙ added o (d.string_item s) (c.create_string (some s)) j k (leaf (text (some s)))
          (member_item c) (find ms k) (d.string_created s) refl
  get_members ((j, leaf (number n)) ∷ ms) o k =
      get_members ms (c.add o j (c.create_number n)) k
      ∙ added o (d.number_item n) (c.create_number n) j k (leaf (number n)) (member_item c)
          (find ms k) (d.number_created n) refl
  get_members ((j, nested ls) ∷ ms) o k =
      get_members ms (c.add o j (member_item c (nested ls))) k
      ∙ added o (add_leaves c d.empty ls) (member_item c (nested ls)) j k (nested ls)
          (member_item c) (find ms k) (ap (λ y. y >>= λ o1. some (add_leaves c o1 ls)) d.created)
          refl
