-- ===== src/InfoManager/Legal.antt =====
-- src/base/info_manager.c: the checks of the configured function names.
pub mod Laws
use monitor_node.Prelude.{
  ℕ, suc, ℤ, error, success, eqb_ℤ, neg_ℕ, Str, c_str, name_in, Bool, List, [], ◌∷◌, if◌then◌else◌,
}
use monitor_node.InfoManager.Types.{InterfaceInfo}

abbrev pub send_func_name_array : List Str
send_func_name_array =
    c_str "send_packet_by_ip_addr"
    ∷ c_str "send_packet_by_mac_addr"
    ∷ c_str "send_packet_xy"
    ∷ c_str "send_packet_rs485"
    ∷ c_str "send_packet_can_fpu"
    ∷ c_str "send_packet_can_gpu"
    ∷ []

abbrev pub recv_func_name_array : List Str
recv_func_name_array =
    c_str "receive_packet_by_ip_addr"
    ∷ c_str "receive_packet_by_mac_addr"
    ∷ c_str "receive_packet_xy"
    ∷ c_str "receive_packet_rs485"
    ∷ c_str "receive_packet_can_fpu"
    ∷ c_str "receive_packet_can_gpu"
    ∷ []

unfoldable pub check_single_send_base_func_legal : InterfaceInfo → ℤ
check_single_send_base_func_legal info =
    if name_in info.base_send_func send_func_name_array then success else error

-- The field that is compared is `base_send_func` here too.
unfoldable pub check_single_recv_base_func_legal : InterfaceInfo → ℤ
check_single_recv_base_func_legal info =
    if name_in info.base_send_func recv_func_name_array then success else error

-- The loops from index `i`: `return -i` at the first entry that is refused.
unfoldable pub first_refused : (InterfaceInfo → ℤ) → ℕ → List InterfaceInfo → ℤ
first_refused check i [] = success
first_refused check i (f ∷ fs) =
    let rest = first_refused check (suc i) fs in if eqb_ℤ (check f) error then neg_ℕ i else rest

unfoldable pub check_all_send_base_func_legal : List InterfaceInfo → ℤ
unfolding first_refused
check_all_send_base_func_legal array = first_refused check_single_send_base_func_legal 0 array

unfoldable pub check_all_recv_base_func_legal : List InterfaceInfo → ℤ
unfolding first_refused
check_all_recv_base_func_legal array = first_refused check_single_recv_base_func_legal 0 array
