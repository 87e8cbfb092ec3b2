-- ===== src/OneInterface/Choose.antt =====
-- src/one_interface_operator.c: `choose_communication_info_operation_at_specified_interface` and
-- `update_status_in_current_round`.
pub mod Laws
use monitor_node.Prelude.{ℤ, Str, strcmp_eq, Bool, Option, none, some, if◌then◌else◌, ◌>>=◌}
use monitor_node.InfoManager.{Manager}
use monitor_node.InfoManager.Interfaces.{
  get_interface_index, get_interface_name_by_index, get_center_interface_name,
  is_this_interface_in_current_node, get_interface_name_by_linked_interface_name,
  get_status_chooser_by_index,
}
use monitor_node.StatusChooser.{status_chooser_transfer}
use monitor_node.Firmware.Status.{Outcome, set_status}

-- The three codes of configures.h.
pub data Operation : Type 0 where
  download_all_communication_infos_locally : Operation
  do_nothing_with_the_communication_infos : Operation
  sync_the_communication_infos : Operation

unfoldable pub choose_communication_info_operation_at_specified_interface :
    Manager → ℤ → Option Operation
choose_communication_info_operation_at_specified_interface m index =
    get_interface_name_by_index m index >>= λ current_interface.
    get_center_interface_name m index >>= λ center. some (
      if is_this_interface_in_current_node m center
      then download_all_communication_infos_locally
      else elim (get_interface_name_by_linked_interface_name m center) [
        | none ↦ do_nothing_with_the_communication_infos
        | some linked ↦
            if strcmp_eq current_interface linked
            then sync_the_communication_infos
            else do_nothing_with_the_communication_infos
      ])

unfoldable pub update_status_in_current_round :
    (Str → Bool) → Manager → Str → Str → ℤ → Option Outcome
update_status_in_current_round is_up m updated_interface mode current_round =
    get_status_chooser_by_index m (get_interface_index m updated_interface) >>= λ chooser.
    set_status is_up m (some updated_interface)
      (some (status_chooser_transfer chooser updated_interface mode current_round))
