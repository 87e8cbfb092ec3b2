-- ===== src/InfoManager/Interfaces.antt =====
-- src/base/info_manager.c: the searches in `interface_info_array` and the accessors by index. An
-- access outside of the array is the fault `none`; `char *` results that are NULL are `none` too
-- where the function returns NULL itself.
pub mod Parameters
pub mod Search
pub mod Names
use monitor_node.Prelude.{
  ℕ, suc, ℤ, pos, negsuc, error, Str, strcmp_eq, Bool, true, false, Option, none, some, List, [],
  ◌∷◌, get_elem?, set, if◌then◌else◌, ◌>>=◌,
}
use monitor_node.InfoManager.Types.{Manager, InterfaceInfo, EthInfo, CanInfo, Rs485Info}

-- The first entry with the name, as the loops of the searches find it.
unfoldable pub index_from : ℕ → Str → List InterfaceInfo → ℤ
index_from i name [] = error
index_from i name (f ∷ fs) =
    let rest = index_from (suc i) name fs in if strcmp_eq f.interface_name name then pos i else rest

unfoldable pub get_interface_index : Manager → Str → ℤ
unfolding index_from
get_interface_index m name = index_from 0 name m.interface_info_array

unfoldable pub has_name : Str → List InterfaceInfo → Bool
has_name name [] = false
has_name name (f ∷ fs) = if strcmp_eq f.interface_name name then true else has_name name fs

unfoldable pub is_this_interface_in_current_node : Manager → Str → Bool
unfolding has_name
is_this_interface_in_current_node m name = has_name name m.interface_info_array

unfoldable pub name_by_linked : Str → List InterfaceInfo → Option Str
name_by_linked linked [] = none
name_by_linked linked (f ∷ fs) =
    if strcmp_eq f.linked_interface_name linked
    then some f.interface_name
    else name_by_linked linked fs

unfoldable pub get_interface_name_by_linked_interface_name : Manager → Str → Option Str
unfolding name_by_linked
get_interface_name_by_linked_interface_name m linked = name_by_linked linked m.interface_info_array

unfoldable pub status_of : Str → List InterfaceInfo → Option Str
status_of name [] = none
status_of name (f ∷ fs) =
    if strcmp_eq f.interface_name name then some f.status else status_of name fs

unfoldable pub get_interface_status : Manager → Str → Option Str
unfolding status_of
get_interface_status m name = status_of name m.interface_info_array

-- `interface_info_array[i]`
abbrev pub interface_at : Manager → ℤ → Option InterfaceInfo
interface_at m (pos i) = get_elem? m.interface_info_array i
interface_at m (negsuc i) = none

-- An assignment to `interface_info_array[i]`; out of range it faults.
abbrev pub set_interface_at : Manager → ℤ → (InterfaceInfo → InterfaceInfo) → Option Manager
set_interface_at m (pos i) g = get_elem? m.interface_info_array i >>= λ f.
    some (record m { interface_info_array = set m.interface_info_array i (g f) })
set_interface_at m (negsuc i) g = none

abbrev pub get_initialized_flag_by_index : Manager → ℤ → Option ℤ
get_initialized_flag_by_index m i = interface_at m i >>= λ f. some f.initialized_flag

abbrev pub set_initialized_flag_by_index : Manager → ℤ → ℤ → Option Manager
set_initialized_flag_by_index m i flag =
    set_interface_at m i (λ f. record f { initialized_flag = flag })

abbrev pub get_port_id_by_index : Manager → ℤ → Option ℤ
get_port_id_by_index m i = interface_at m i >>= λ f. some f.eth_info.port_id

abbrev pub get_linked_port_id_by_index : Manager → ℤ → Option ℤ
get_linked_port_id_by_index m i = interface_at m i >>= λ f. some f.linked_eth_info.port_id

abbrev pub get_linked_node : Manager → ℤ → Option Str
get_linked_node m i = interface_at m i >>= λ f. some f.linked_node

abbrev pub get_base_send_func_by_index : Manager → ℤ → Option Str
get_base_send_func_by_index m i = interface_at m i >>= λ f. some f.base_send_func

abbrev pub get_base_receive_func_by_index : Manager → ℤ → Option Str
get_base_receive_func_by_index m i = interface_at m i >>= λ f. some f.base_receive_func

abbrev pub get_interface_name_by_index : Manager → ℤ → Option Str
get_interface_name_by_index m i = interface_at m i >>= λ f. some f.interface_name

abbrev pub get_linked_interface_name_by_index : Manager → ℤ → Option Str
get_linked_interface_name_by_index m i = interface_at m i >>= λ f. some f.linked_interface_name

abbrev pub get_temporary_sockfd_by_index : Manager → ℤ → Option ℤ
get_temporary_sockfd_by_index m i = interface_at m i >>= λ f. some f.eth_info.temporary_sockfd

abbrev pub get_msg_generator_of_sender_by_index : Manager → ℤ → Option Str
get_msg_generator_of_sender_by_index m i = interface_at m i >>= λ f. some f.msg_generator_of_sender

abbrev pub get_temporary_fd : Manager → ℤ → Option ℤ
get_temporary_fd m i = interface_at m i >>= λ f. some f.rs485_info.temporary_fd

abbrev pub set_last_work_time : Manager → ℤ → ℤ → Option Manager
set_last_work_time m i now = set_interface_at m i (λ f. record f { last_work_time = now })

-- The pointer itself, which may be NULL, is the result of these.
abbrev pub get_ip_name_by_index : Manager → ℤ → Option (Option Str)
get_ip_name_by_index m i = interface_at m i >>= λ f. some f.eth_info.ip_name

abbrev pub get_ip_addr_by_index : Manager → ℤ → Option (Option Str)
get_ip_addr_by_index m i = interface_at m i >>= λ f. some f.eth_info.ip_addr

abbrev pub get_linked_ip_addr_by_index : Manager → ℤ → Option (Option Str)
get_linked_ip_addr_by_index m i = interface_at m i >>= λ f. some f.linked_eth_info.ip_addr

abbrev pub get_mac_addr_by_index : Manager → ℤ → Option (Option Str)
get_mac_addr_by_index m i = interface_at m i >>= λ f. some f.eth_info.mac_addr

abbrev pub get_linked_mac_addr_by_index : Manager → ℤ → Option (Option Str)
get_linked_mac_addr_by_index m i = interface_at m i >>= λ f. some f.linked_eth_info.mac_addr

abbrev pub get_interface_status_by_index : Manager → ℤ → Option Str
get_interface_status_by_index m i = interface_at m i >>= λ f. some f.status

abbrev pub get_channel_id_by_index : Manager → ℤ → Option ℤ
get_channel_id_by_index m i = interface_at m i >>= λ f. some f.can_info.can_id

abbrev pub get_status_chooser_by_index : Manager → ℤ → Option Str
get_status_chooser_by_index m i = interface_at m i >>= λ f. some f.status_chooser

abbrev pub get_interface_mode_by_index : Manager → ℤ → Option Str
get_interface_mode_by_index m i = interface_at m i >>= λ f. some f.mode

abbrev pub get_center_interface_name : Manager → ℤ → Option Str
get_center_interface_name m i = interface_at m i >>= λ f. some f.center_interface_name
