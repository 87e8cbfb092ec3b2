-- ===== src/InfoManager/Sync.antt =====
-- src/base/info_manager.c: `update_communication_info_array_from_json`, which takes over the results
-- that another node sent. The lock, which the loop gives up while it prints, is left out, and
-- `realloc` is taken to find memory. `none` is the fault of a missing or ill-typed member.
pub mod RoundTrip
use monitor_node.Prelude.{
  ℕ, ℤ, pos, error, success, to_i32, Str, strcmp_eq, strtol, strtoul, Bool, Option, none, some,
  List, [], ◌∷◌, if◌then◌else◌, ◌>>=◌,
}
use monitor_node.InfoManager.Types.{Manager, CommunicationInfo}
use monitor_node.InfoManager.Records.{refreshed}
use monitor_node.InfoManager.Json.{Entry, Json, array, not_array, Platform, string_to_time_t}

unfoldable pub string_to_unsigned_long : Str → ℕ
string_to_unsigned_long str = strtoul str

-- `*result = strtol(…)` keeps 32 bits.
unfoldable pub string_to_int : Str → ℤ
string_to_int str = to_i32 (strtol str)

-- The inner loop: the first result with the name is refreshed, or a new one goes to the end.
unfoldable pub upsert : CommunicationInfo → List CommunicationInfo → List CommunicationInfo
upsert c [] = record c { if_newest_flag = pos 1 } ∷ []
upsert c (d ∷ ds) =
    let rest = upsert c ds in
    if strcmp_eq d.interface_name c.interface_name
    then refreshed c.linked_node c.updated_time c.tx c.rx c.current_round d ∷ ds
    else d ∷ rest

module _ (p : Platform) where
  -- The values that one object of the document gives.
  unfoldable pub read_entry : Entry → Option CommunicationInfo
  read_entry e = do
    interface_name ← e.interface_name
    linked_node ← e.linked_node
    time_text ← e.updated_time
    tx_text ← e.tx
    rx_text ← e.rx
    round_text ← e.current_round
    let stored = (string_to_time_t p time_text).1
    let updated_t : ℤ = elim stored [ none ↦ p.unset_time | some t ↦ t ]
    some (record {
      linked_node = linked_node;
      interface_name = interface_name;
      updated_time = updated_t;
      tx = string_to_unsigned_long tx_text;
      rx = string_to_unsigned_long rx_text;
      current_round = string_to_int round_text;
      if_newest_flag = pos 1;
    })

  unfoldable pub merge_entries :
      List Entry → List CommunicationInfo → Option (List CommunicationInfo)
  merge_entries [] cs = some cs
  merge_entries (e ∷ es) cs = read_entry e >>= λ c. merge_entries es (upsert c cs)

  unfoldable pub update_from_document : Option Json → Manager → Option (ℤ × Manager)
  update_from_document none m = some (error, m)
  update_from_document (some not_array) m = some (error, m)
  update_from_document (some (array es)) m = merge_entries es m.communication_info_array >>= λ cs.
      some (success, record m { communication_info_array = cs })

  unfoldable pub update_communication_info_array_from_json : Manager → Str → Option (ℤ × Manager)
  unfolding update_from_document
  update_communication_info_array_from_json m str = update_from_document (p.cjson_parse str) m
