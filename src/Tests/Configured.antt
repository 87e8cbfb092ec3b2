-- ===== src/Tests/Configured.antt =====
-- A run of the writer and the reader of the configuration on one interface, with a model of cJSON.
use monitor_node.Prelude.{
  ℕ, zero, suc, ◌%◌, ◌≡◌, refl, ℤ, pos, negsuc, Str, c_str, Bool, true, false, Option, none, some,
  List, [], ◌∷◌, ◌++◌, length, take, drop, if◌then◌else◌, ◌>>=◌, arith,
}
use monitor_node.InfoManager.{InterfaceInfo}
use monitor_node.InfoManager.Configuration.{
  write_interface_info_array_to_json, read_interface_info_array_from_split_json,
}
use monitor_node.InfoManager.Configuration.Items.{
  Cjson, array, unparsable, leaf_item, add_leaves, member_item, add_members,
}
use monitor_node.InfoManager.Configuration.Objects.{Documented, same_name, or_else}
use monitor_node.InfoManager.Configuration.RoundTrip.{Prints, made, restored_from, read-write}
use monitor_node.Tests.Fixtures.{eth_if, rs_if}

-- An item is of a kind, and has the items that were added to it.
data Kind : Type 0 where
  object : Kind
  a_string : Str → Kind
  a_number : ℤ → Kind

data Item : Type 0 where
  start : Kind → Item
  child : Item → Str → Item → Item

abbrev kind : Item → Kind
kind (start k) = k
kind (child o j v) = kind o

abbrev add : Item → Str → Option Item → Item
add o j none = o
add o j (some v) = child o j v

abbrev get : Item → Str → Option Item
get (start k) j = none
get (child o i v) j = or_else (get o j) (if same_name i j then some v else none)

abbrev kind_is_object : Kind → Bool
kind_is_object object = true
kind_is_object _ = false

abbrev kind_string : Kind → Option Str
kind_string (a_string s) = some s
kind_string _ = none

abbrev kind_number : Kind → Option ℤ
kind_number (a_number n) = some n
kind_number _ = none

abbrev put_kind : Kind → List ℕ → List ℕ
put_kind object r = 1 ∷ r
put_kind (a_string s) r = 2 ∷ suc (length s) ∷ s ++ r
put_kind (a_number (pos n)) r = 3 ∷ suc n ∷ r
put_kind (a_number (negsuc n)) r = 4 ∷ suc n ∷ r

abbrev put : Item → List ℕ → List ℕ
put (start k) r = put_kind k r
put (child o j v) r = 5 ∷ suc (length j) ∷ j ++ put o (put v r)

abbrev put_all : List Item → List ℕ
put_all [] = 6 ∷ []
put_all (o ∷ os) = put o (put_all os)

-- The parser, on fuel.
abbrev take_item : ℕ → List ℕ → Option (Item × List ℕ)
take_item (suc n) ((suc zero) ∷ r) = some (start object, r)
take_item (suc n) ((suc (suc zero)) ∷ suc m ∷ r) = some (start (a_string (take m r)), drop m r)
take_item (suc n) ((suc (suc (suc zero))) ∷ suc m ∷ r) = some (start (a_number (pos m)), r)
take_item (suc n) ((suc (suc (suc (suc zero)))) ∷ suc m ∷ r) = some (start (a_number (negsuc m)), r)
take_item (suc n) ((suc (suc (suc (suc (suc zero))))) ∷ suc m ∷ r) =
    take_item n (drop m r) >>= λ (o, r1).
    take_item n r1 >>= λ (v, r2). some (child o (take m r) v, r2)
take_item _ _ = none

abbrev take_all_items : ℕ → List ℕ → Option (List Item)
take_all_items (suc n) ((suc (suc (suc (suc (suc (suc zero)))))) ∷ r) = some []
take_all_items (suc n) r = take_item 60 r >>= λ (o, r1). take_all_items n r1 >>= λ os. some (o ∷ os)
take_all_items _ _ = none

abbrev unsigned_char : ℤ → ℕ
unsigned_char (pos n) = n % 256
unsigned_char (negsuc n) = 255

abbrev cjson : Cjson
cjson = record {
  Item = Item;
  create_object = some (start object);
  create_string = λ s. s >>= λ t. some (start (a_string t));
  create_number = λ n. some (start (a_number n));
  add = add;
  get_object_item = get;
  is_object = λ o. kind_is_object (kind o);
  value_string = λ o. kind_string (kind o);
  value_number = λ o. kind_number (kind o);
  unsigned_char = unsigned_char;
  print = λ os. some (put_all os);
  parse = λ s. elim (take_all_items 9 s) [ none ↦ unparsable | some os ↦ array os ];
}

object_no_string : (k : Kind) → kind_is_object k ≡ true → kind_string k ≡ none
object_no_string object e = refl
object_no_string (a_string s) e = cc
object_no_string (a_number n) e = refl

cjson-Documented : Documented cjson
cjson-Documented = record {
  empty = start object;
  string_item = λ s. start (a_string s);
  number_item = λ n. start (a_number n);
  created = refl;
  null_string = refl;
  string_created = λ s. refl;
  number_created = λ n. refl;
  string_value = λ s. refl;
  number_value = λ n. refl;
  string_no_number = λ s. refl;
  number_no_string = λ n. refl;
  string_no_object = λ s. refl;
  number_no_object = λ n. refl;
  object_no_string = λ o. object_no_string (kind o);
  get_empty = λ k. refl;
  add_none = λ o j. refl;
  get_add = λ o v j k. refl;
  empty_is_object = refl;
  add_is_object = λ o v j. refl;
  unsigned_char_lem = λ n h. omega arith;
}

-- The first interface has a MAC address, the second one has none.
abbrev interfaces : List InterfaceInfo
interfaces =
    record eth_if {
      eth_info = record eth_if.eth_info { mac_addr = some (c_str "0a:0b:0c:0d:0e:0f") };
    }
    ∷ rs_if
    ∷ []

interfaces-Prints : Prints cjson cjson-Documented (made cjson cjson-Documented interfaces)
unfolding leaf_item add_leaves member_item add_members cjson-Documented
interfaces-Prints = record {
  text = put_all (made cjson cjson-Documented interfaces);
  printed = refl;
  short = omega arith;
  parsed = refl;
}

read-write_example :
    (write_interface_info_array_to_json cjson true interfaces ≡ some interfaces-Prints.text)
    × (read_interface_info_array_from_split_json cjson (λ i. eth_if) interfaces-Prints.text
        ≡ some (some (restored_from (λ i. eth_if) 0 interfaces)))
read-write_example =
    read-write cjson cjson-Documented (λ i. eth_if) interfaces
      ((omega arith, omega arith), ((omega arith, omega arith), tt)) interfaces-Prints
