-- ===== src/InfoManager/Records.antt =====
-- src/base/info_manager.c: the results in `communication_info_array`, and how a listener and a
-- reset change them. The lock around each function is left out: a call is one step.
pub mod Laws
use monitor_node.Prelude.{
  ℕ, suc, ℤ, pos, negsuc, error, success, Str, strcmp_eq, Bool, Option, none, some, List, [], ◌∷◌,
  map, get_elem?, set, if◌then◌else◌, ◌>>=◌,
}
use monitor_node.InfoManager.Types.{Manager, CommunicationInfo}

-- The first result with the name.
unfoldable pub find_record : Str → List CommunicationInfo → Option CommunicationInfo
find_record name [] = none
find_record name (c ∷ cs) = if strcmp_eq c.interface_name name then some c else find_record name cs

-- The loop of `update_communication_info_array`; `none` if no result has the name.
unfoldable pub with_record :
    Str
    → (CommunicationInfo → CommunicationInfo)
    → List CommunicationInfo
    → Option (List CommunicationInfo)
with_record name g [] = none
with_record name g (c ∷ cs) =
    let rest = with_record name g cs in
    if strcmp_eq c.interface_name name
    then some (g c ∷ cs)
    else elim rest [ none ↦ none | some ds ↦ some (c ∷ ds) ]

-- What the assignments write: all but the name, and the mark that the result is not yet synced.
abbrev pub refreshed : Str → ℤ → ℕ → ℕ → ℤ → CommunicationInfo → CommunicationInfo
refreshed node time tx' rx' round c = record c {
  linked_node = node;
  updated_time = time;
  tx = tx';
  rx = rx';
  current_round = round;
  if_newest_flag = pos 1;
}

unfoldable pub update_communication_info_array : Manager → Str → Str → ℤ → ℕ → ℕ → ℤ → ℤ × Manager
unfolding with_record
update_communication_info_array m linked_node interface_name updated_time tx rx current_round =
    elim (with_record interface_name (refreshed linked_node updated_time tx rx current_round)
      m.communication_info_array) [
        | none ↦ (error, m)
        | some cs ↦ (success, record m { communication_info_array = cs })
      ]

-- `clock` is what `time(NULL)` gives in each round of the loop.
reset_from : (ℕ → ℤ) → ℕ → ℕ → ℕ → List CommunicationInfo → List CommunicationInfo
reset_from clock i rx' tx' [] = []
reset_from clock i rx' tx' (c ∷ cs) =
    record c {
      updated_time = clock i;
      tx = tx';
      rx = rx';
      current_round = negsuc 0;
      if_newest_flag = pos 1;
    }
    ∷ reset_from clock (suc i) rx' tx' cs

-- The two counts come in as `int`s that are not negative.
unfoldable pub reset_all_communication_infos : (ℕ → ℤ) → Manager → ℕ → ℕ → Manager
unfolding reset_from
reset_all_communication_infos clock m rx tx = record m {
  communication_info_array = reset_from clock 0 rx tx m.communication_info_array;
}

abbrev pub get_if_newest_flag : Manager → ℤ → Option ℤ
get_if_newest_flag m (pos i) = get_elem? m.communication_info_array i >>= λ c. some c.if_newest_flag
get_if_newest_flag m (negsuc i) = none

abbrev pub set_if_newest_flag : Manager → ℤ → ℤ → Option Manager
set_if_newest_flag m (pos i) flag = get_elem? m.communication_info_array i >>= λ c. some (record m {
  communication_info_array = set m.communication_info_array i (record c { if_newest_flag = flag });
})
set_if_newest_flag m (negsuc i) flag = none
