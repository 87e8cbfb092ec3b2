-- ===== src/InfoManager/Json.antt =====
-- src/base/info_manager.c: results as JSON. What the code does not implement is a `Platform`: the
-- C library's calendar functions with the format "%c", and cJSON's printer and parser on the one
-- kind of document that is exchanged, an array of objects with six strings.
use monitor_node.Prelude.{
  ℕ, ℤ, negsuc, eqb_ℤ, error, success, Str, strcmp_eq, print_unsigned, print_int, Option, none,
  some, List, [], ◌∷◌, ◌≡◌, if◌then◌else◌,
}
use monitor_node.InfoManager.Types.{Manager, CommunicationInfo}

-- `cJSON_GetObjectItem(item, …)->valuestring` for the six names; `none` if there is no such string,
-- so that the access is one through a null pointer.
pub record Entry : Type 0 where
  pub linked_node : Option Str
  pub interface_name : Option Str
  pub updated_time : Option Str
  pub tx : Option Str
  pub rx : Option Str
  pub current_round : Option Str

pub data Json : Type 0 where
  array : List Entry → Json
  not_array : Json

pub record Platform : Type 1 where
  pub Tm : Type 0
  pub localtime : ℤ → Option Tm
  pub strftime : ℕ → Tm → Option Str  -- `none` for 0: the text does not fit
  pub strptime : Str → Option Tm
  pub mktime : Tm → ℤ
  pub cjson_print : List Entry → Str
  pub cjson_parse : Str → Option Json
  pub unset_time : ℤ  -- what an uninitialised `time_t` holds
  pub unset_text : Str  -- what an uninitialised `char[80]` holds

-- What the exchange relies on at a time: the calendar functions take it to a text and back.
pub record TimeRoundTrips (p : Platform) (t : ℤ) : Type 0 where
  pub tm : p.Tm
  pub tm' : p.Tm
  pub text : Str
  pub local : p.localtime t ≡ some tm
  pub printed : p.strftime 80 tm ≡ some text
  pub parsed : p.strptime text ≡ some tm'
  pub made : p.mktime tm' ≡ t

module _ (p : Platform) where
  -- The code, and what is stored through the pointer, if anything is.
  unfoldable pub string_to_time_t : Str → ℤ × Option ℤ
  string_to_time_t buffer = elim (p.strptime buffer) [
    | none ↦ (error, none)
    | some tm ↦ ((if eqb_ℤ (p.mktime tm) (negsuc 0) then error else success), some (p.mktime tm))
  ]

  unfoldable pub time_t_to_string : ℤ → ℕ → ℤ × Option Str
  time_t_to_string t size = elim (p.localtime t) [
    | none ↦ (error, none)
    | some tm ↦ elim (p.strftime size tm) [
      | none ↦ (error, none)
      | some text ↦ (success, some text)
    ]
  ]

  -- The object that the three printing functions build for one result; their codes are not read.
  unfoldable pub entry_of : CommunicationInfo → Entry
  entry_of c = record {
    linked_node = some c.linked_node;
    interface_name = some c.interface_name;
    updated_time =
        some
          (elim (time_t_to_string c.updated_time 80).1 [ none ↦ p.unset_text | some text ↦ text ]);
    tx = some (print_unsigned c.tx);
    rx = some (print_unsigned c.rx);
    current_round = some (print_int c.current_round);
  }

  unfoldable pub entries : List CommunicationInfo → List Entry
  entries [] = []
  entries (c ∷ cs) = entry_of c ∷ entries cs

  unfoldable pub parse_communication_info_array_to_json : Manager → Str
  unfolding entries
  parse_communication_info_array_to_json m = p.cjson_print (entries m.communication_info_array)

  entries_named : Str → List CommunicationInfo → List Entry
  entries_named name [] = []
  entries_named name (c ∷ cs) =
      let rest = entries_named name cs in
      if strcmp_eq name c.interface_name then entry_of c ∷ rest else rest

  unfoldable pub parse_communication_info_array_with_certain_listen_interface_to_json :
      Manager → Str → Str
  unfolding entries_named
  parse_communication_info_array_with_certain_listen_interface_to_json m name =
      p.cjson_print (entries_named name m.communication_info_array)
