-- ===== src/InfoManager/Configuration/Items.antt =====
-- cJSON as src/base/info_manager.c calls it, on the configuration of the interfaces.
use monitor_node.Prelude.{ℕ, ℤ, Str, Bool, Option, none, some, List, [], ◌∷◌, if◌then◌else◌, ◌>>=◌}

-- What is added to an object: a string, which may be a null pointer, or a number; and, to the object
-- of an interface, an object of those.
pub data Leaf : Type 0 where
  text : Option Str → Leaf
  number : ℤ → Leaf

pub data Member : Type 0 where
  leaf : Leaf → Member
  nested : List (Str × Leaf) → Member

-- What the parser answers.
pub data Parsed (A : Type 0) : Type 0 where
  array : List A → Parsed A
  not_array : Parsed A
  unparsable : Parsed A

-- `add` is `cJSON_AddItemToObject`, `value_string` and `value_number` the value of an item of that
-- kind, the number as the code converts it to an `int`; `unsigned_char` is C's conversion of a number.
pub record Cjson : Type 1 where
  pub Item : Type 0
  pub create_object : Option Item
  pub create_string : Option Str → Option Item
  pub create_number : ℤ → Option Item
  pub add : Item → Str → Option Item → Item
  pub get_object_item : Item → Str → Option Item
  pub is_object : Item → Bool
  pub value_string : Item → Option Str
  pub value_number : Item → Option ℤ
  pub unsigned_char : ℤ → ℕ
  pub print : List Item → Option Str
  pub parse : Str → Parsed Item

-- An object as the reader sees it: its strings and numbers, and the strings and numbers of the
-- objects in it.
pub record Fields : Type 0 where
  pub text : Str → Option Str
  pub number : Str → Option ℤ

pub record View : Type 0 where
  pub text : Str → Option Str
  pub object : Str → Option Fields

module _ (c : Cjson) where
  -- `cJSON_AddStringToObject` and `cJSON_AddNumberToObject`
  unfoldable pub leaf_item : Leaf → Option c.Item
  leaf_item (text s) = c.create_string s
  leaf_item (number n) = c.create_number n

  unfoldable pub add_leaves : c.Item → List (Str × Leaf) → c.Item
  add_leaves o [] = o
  add_leaves o ((k, l) ∷ ls) = add_leaves (c.add o k (leaf_item l)) ls

  unfoldable pub member_item : Member → Option c.Item
  member_item (leaf l) = leaf_item l
  member_item (nested ls) = c.create_object >>= λ o. some (add_leaves o ls)

  unfoldable pub add_members : c.Item → List (Str × Member) → c.Item
  add_members o [] = o
  add_members o ((k, m) ∷ ms) = add_members (c.add o k (member_item m)) ms

  abbrev pub fields : c.Item → Fields
  fields o = record {
    text = λ k. c.get_object_item o k >>= c.value_string;
    number = λ k. c.get_object_item o k >>= c.value_number;
  }

  abbrev pub object_fields : c.Item → Option Fields
  object_fields o = if c.is_object o then some (fields o) else none

  abbrev pub view : c.Item → View
  view o = record {
    text = λ k. c.get_object_item o k >>= c.value_string;
    object = λ k. c.get_object_item o k >>= object_fields;
  }
