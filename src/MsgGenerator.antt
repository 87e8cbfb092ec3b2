-- ===== src/MsgGenerator.antt =====
-- src/msg_generator_lib.c: the test message that an interface sends in a round. A generator writes
-- to the buffer `msg` and returns a code; here it returns both, and `none` is a fault: reading
-- `interface_info_array[-1]`, or writing outside of the buffer, which has `MAX_RES_LEN` bytes at both
-- places that call a generator. The modes are parameters of the source's functions that none reads.
pub mod Laws
use monitor_node.Prelude.{
  ℕ, ltb, length, ℤ, error, success, Str, c_str, strcmp_eq, name_in, print_int, Option, none, some,
  List, [], ◌∷◌, ◌++◌, if◌then◌else◌, ◌>>=◌,
}
use monitor_node.InfoManager.{Manager}
use monitor_node.InfoManager.Interfaces.{get_interface_index, get_channel_id_by_index}

abbrev pub msg_generator_name_array : List Str
msg_generator_name_array =
    c_str "generate_eth_test_msg"
    ∷ c_str "generate_rs485_test_msg"
    ∷ c_str "generate_fpu_can_test_msg"
    ∷ c_str "generate_gpu_can_test_msg"
    ∷ []

abbrev pub max_res_len : ℕ
max_res_len = 2048

-- The text and its terminating zero fit in the buffer, or `sprintf` writes outside of it.
abbrev pub printed : Str → Option (ℤ × Str)
printed text = if ltb (length text) max_res_len then some (success, text) else none

-- "round %d test for %s"
abbrev pub round_text : ℤ → Str → Str
round_text current_round interface_name =
    c_str "round " ++ (print_int current_round ++ (c_str " test for " ++ interface_name))

unfoldable pub generate_eth_test_msg : Str → Str → ℤ → Option (ℤ × Str)
generate_eth_test_msg interface_name mode current_round =
    printed (round_text current_round interface_name)

unfoldable pub generate_rs485_test_msg : Str → Str → ℤ → Option (ℤ × Str)
generate_rs485_test_msg interface_name mode current_round =
    printed (round_text current_round interface_name)

-- sprintf(msg, "can%d", get_channel_id_by_index(index))
unfoldable pub generate_fpu_can_test_msg : Manager → Str → Str → ℤ → Option (ℤ × Str)
generate_fpu_can_test_msg m interface_name mode current_round =
    get_channel_id_by_index m (get_interface_index m interface_name) >>= λ id.
    printed (c_str "can" ++ print_int id)

unfoldable pub generate_gpu_can_test_msg : Manager → Str → Str → ℤ → Option (ℤ × Str)
generate_gpu_can_test_msg m interface_name mode current_round =
    get_channel_id_by_index m (get_interface_index m interface_name) >>= λ id.
    printed (c_str "can" ++ print_int id)

-- `msg` is what the buffer holds at the call; an unknown generator leaves it.
unfoldable pub msg_generator_transfer : Manager → Str → Str → Str → ℤ → Str → Option (ℤ × Str)
msg_generator_transfer m name interface_name mode current_round msg =
    if name_in name msg_generator_name_array
    then (if strcmp_eq name (c_str "generate_eth_test_msg")
        then generate_eth_test_msg interface_name mode current_round
        else if strcmp_eq name (c_str "generate_rs485_test_msg")
        then generate_rs485_test_msg interface_name mode current_round
        else if strcmp_eq name (c_str "generate_fpu_can_test_msg")
        then generate_fpu_can_test_msg m interface_name mode current_round
        else if strcmp_eq name (c_str "generate_gpu_can_test_msg")
        then generate_gpu_can_test_msg m interface_name mode current_round
        else some (error, msg))
    else some (error, msg)
