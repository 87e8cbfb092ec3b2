-- ===== src/InfoManager/Configuration/Views.antt =====
-- An object of src/base/info_manager.c that is made member by member, as the reader sees it.
use mathlib.Core.Path.{ap₂, fun_ext}
use monitor_node.Prelude.{
  ◌≡◌, refl, ap, ◌∙◌, ℤ, Str, true, Option, none, some, List, if◌then◌else◌, ◌>>=◌,
}
use monitor_node.InfoManager.Configuration.Items.{
  Cjson, Leaf, text, number, Member, leaf, nested, leaf_item, add_leaves, member_item, add_members,
  Fields, View, fields, object_fields, view,
}
use monitor_node.InfoManager.Configuration.Objects.{
  Documented, or_else, find_leaf, find, get_leaves, leaves_is_object, get_members,
}

abbrev pub leaf_text : Leaf → Option Str
leaf_text (text s) = s
leaf_text (number n) = none

abbrev pub leaf_number : Leaf → Option ℤ
leaf_number (text s) = none
leaf_number (number n) = some n

-- The members of a list of leaves, and of a list of members.
abbrev pub leaf_fields : List (Str × Leaf) → Fields
leaf_fields ls = record {
  text = λ k. find_leaf ls k >>= leaf_text;
  number = λ k. find_leaf ls k >>= leaf_number;
}

abbrev pub member_text : Member → Option Str
member_text (leaf l) = leaf_text l
member_text (nested ls) = none

abbrev pub member_object : Member → Option Fields
member_object (leaf l) = none
member_object (nested ls) = some (leaf_fields ls)

abbrev pub member_view : List (Str × Member) → View
member_view ms = record {
  text = λ k. find ms k >>= member_text;
  object = λ k. find ms k >>= member_object;
}

-- Two chains of steps agree where each step does.
bind_lem :
    {A B I : Type 0} (f : A → Option I) (g : I → Option B) (h : A → Option B)
    → ((a : A) → (f a >>= g) ≡ h a)
    → (x : Option A) → ((x >>= f) >>= g) ≡ (x >>= h)
bind_lem f g h e none = refl
bind_lem f g h e (some a) = e a

module _ (c : Cjson) (d : Documented c) where
  text_of_leaf : (l : Leaf) → (leaf_item c l >>= c.value_string) ≡ leaf_text l
  unfolding leaf_item
  text_of_leaf (text none) = ap (λ x. x >>= c.value_string) d.null_string
  text_of_leaf (text (some s)) =
      ap (λ x. x >>= c.value_string) (d.string_created s) ∙ d.string_value s
  text_of_leaf (number n) =
      ap (λ x. x >>= c.value_string) (d.number_created n) ∙ d.number_no_string n

  number_of_leaf : (l : Leaf) → (leaf_item c l >>= c.value_number) ≡ leaf_number l
  unfolding leaf_item
  number_of_leaf (text none) = ap (λ x. x >>= c.value_number) d.null_string
  number_of_leaf (text (some s)) =
      ap (λ x. x >>= c.value_number) (d.string_created s) ∙ d.string_no_number s
  number_of_leaf (number n) = ap (λ x. x >>= c.value_number) (d.number_created n) ∙ d.number_value n

  object_of_leaf : (l : Leaf) → (leaf_item c l >>= object_fields c) ≡ none
  unfolding leaf_item
  object_of_leaf (text none) = ap (λ x. x >>= object_fields c) d.null_string
  object_of_leaf (text (some s)) =
      ap (λ x. x >>= object_fields c) (d.string_created s)
      ∙ ap (λ b. if b then some (fields c (d.string_item s)) else none) (d.string_no_object s)
  object_of_leaf (number n) =
      ap (λ x. x >>= object_fields c) (d.number_created n)
      ∙ ap (λ b. if b then some (fields c (d.number_item n)) else none) (d.number_no_object n)

  found_leaf :
      (ls : List (Str × Leaf)) (k : Str)
      → c.get_object_item (add_leaves c d.empty ls) k ≡ (find_leaf ls k >>= leaf_item c)
  found_leaf ls k =
      get_leaves c d ls d.empty k
      ∙ ap (λ x. or_else x (find_leaf ls k >>= leaf_item c)) (d.get_empty k)

  found_member :
      (ms : List (Str × Member)) (k : Str)
      → c.get_object_item (add_members c d.empty ms) k ≡ (find ms k >>= member_item c)
  found_member ms k =
      get_members c d ms d.empty k
      ∙ ap (λ x. or_else x (find ms k >>= member_item c)) (d.get_empty k)

  fields_lem : (ls : List (Str × Leaf)) → fields c (add_leaves c d.empty ls) ≡ leaf_fields ls
  fields_lem ls =
      ap₂ (λ f g. record { text = f; number = g })
        (fun_ext λ k.
          ap (λ x. x >>= c.value_string) (found_leaf ls k)
          ∙ bind_lem (leaf_item c) c.value_string leaf_text text_of_leaf (find_leaf ls k))
        (fun_ext λ k.
          ap (λ x. x >>= c.value_number) (found_leaf ls k)
          ∙ bind_lem (leaf_item c) c.value_number leaf_number number_of_leaf (find_leaf ls k))

  leaves_object : (ls : List (Str × Leaf)) → c.is_object (add_leaves c d.empty ls) ≡ true
  leaves_object ls = leaves_is_object c d ls d.empty ∙ d.empty_is_object

  nested_made :
      (ls : List (Str × Leaf)) → member_item c (nested ls) ≡ some (add_leaves c d.empty ls)
  unfolding member_item
  nested_made ls = ap (λ y. y >>= λ o. some (add_leaves c o ls)) d.created

  text_of_member : (m : Member) → (member_item c m >>= c.value_string) ≡ member_text m
  unfolding member_item
  text_of_member (leaf l) = text_of_leaf l
  text_of_member (nested ls) =
      ap (λ x. x >>= c.value_string) (nested_made ls)
      ∙ d.object_no_string (add_leaves c d.empty ls) (leaves_object ls)

  object_of_member : (m : Member) → (member_item c m >>= object_fields c) ≡ member_object m
  unfolding member_item
  object_of_member (leaf l) = object_of_leaf l
  object_of_member (nested ls) =
      ap (λ x. x >>= object_fields c) (nested_made ls)
      ∙ ap (λ b. if b then some (fields c (add_leaves c d.empty ls)) else none) (leaves_object ls)
      ∙ ap some (fields_lem ls)

  -- The reader sees in the object that is made what the list of members says.
  pub view_lem : (ms : List (Str × Member)) → view c (add_members c d.empty ms) ≡ member_view ms
  view_lem ms =
      ap₂ (λ f g. record { text = f; object = g })
        (fun_ext λ k.
          ap (λ x. x >>= c.value_string) (found_member ms k)
          ∙ bind_lem (member_item c) c.value_string member_text text_of_member (find ms k))
        (fun_ext λ k.
          ap (λ x. x >>= object_fields c) (found_member ms k)
          ∙ bind_lem (member_item c) (object_fields c) member_object object_of_member (find ms k))
