-- ===== src/InfoManager/Status.antt =====
-- src/base/info_manager.c: `isValidStatus` and `set_interface_status`. `strdup` is taken to find
-- memory, so the function's answer to a failure of it is left out.
pub mod Laws
use monitor_node.Prelude.{
  ℤ, error, success, Str, c_str, strcmp_eq, name_in, Bool, Option, none, some, List, [], ◌∷◌,
  if◌then◌else◌,
}
use monitor_node.InfoManager.Types.{Manager, InterfaceInfo}

abbrev pub valid_statuses : List Str
valid_statuses =
    c_str "sending" ∷ c_str "receiving" ∷ c_str "sending_and_receiving" ∷ c_str "closed" ∷ []

unfoldable pub is_valid_status : Str → Bool
is_valid_status status = name_in status valid_statuses

-- The loop: the first entry with the name gets the status; `none` if there is no such entry.
unfoldable pub with_status : Str → Str → List InterfaceInfo → Option (List InterfaceInfo)
with_status name status [] = none
with_status name status (f ∷ fs) =
    let rest = with_status name status fs in
    if strcmp_eq f.interface_name name
    then some (record f { status = status } ∷ fs)
    else elim rest [ none ↦ none | some gs ↦ some (f ∷ gs) ]

unfoldable pub set_interface_status : Manager → Str → Str → ℤ × Manager
set_interface_status m name status =
    if is_valid_status status
    then elim (with_status name status m.interface_info_array) [
      | none ↦ (error, m)
      | some fs ↦ (success, record m { interface_info_array = fs })
    ]
    else (error, m)
