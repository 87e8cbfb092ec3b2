-- ===== src/Tests/Rules.antt =====
-- Runs of the theorems about src/status_chooser_lib.c and src/msg_generator_lib.c.
use monitor_node.Prelude.{
  [], ◌∷◌, ◌≡◌, refl, ◌↔◌, arith, pos, negsuc, c_str, strcmp_eq, Str, some, none, success, name_in,
}
use monitor_node.InfoManager.{Manager}
use monitor_node.InfoManager.Interfaces.{get_interface_index, is_this_interface_in_current_node}
use monitor_node.StatusChooser.{receiving, test_mode, listen_mode, status_chooser_transfer}
use monitor_node.StatusChooser.Duplex.{Opposed, ends-Opposed, odd_even_share}
use monitor_node.MsgGenerator.{generate_fpu_can_test_msg, generate_gpu_can_test_msg}
use monitor_node.MsgGenerator.Laws.{generate_can_test_msg_lem}
use monitor_node.Tests.Fixtures.{node, can_if}

ends-Opposed_example :
    Opposed
      (status_chooser_transfer (c_str "only_work_at_odd_round") (c_str "rs0") test_mode (pos 3))
      (status_chooser_transfer (c_str "only_work_at_odd_round") (c_str "far1") listen_mode (pos 3))
unfolding name_in strcmp_eq
ends-Opposed_example =
    ends-Opposed (c_str "only_work_at_odd_round") (c_str "rs0") (c_str "far1") (pos 3) refl

odd_even_share_example :
    Opposed
      (status_chooser_transfer (c_str "only_work_at_odd_round") (c_str "rs0") test_mode (pos 3))
      (status_chooser_transfer (c_str "only_work_at_even_round") (c_str "rs1") test_mode (pos 3))
    × (status_chooser_transfer (c_str "only_work_at_odd_round") (c_str "rs0") test_mode (negsuc 4)
        ≡ receiving)
    × (status_chooser_transfer (c_str "only_work_at_even_round") (c_str "rs1") test_mode (negsuc 4)
        ≡ receiving)
odd_even_share_example = odd_even_share (c_str "rs0") (c_str "rs1") 3 2

-- Two CAN interfaces with different channels.
abbrev two_cans : Manager
two_cans = record node {
  interface_info_array =
      can_if
      ∷ record can_if {
        interface_name = c_str "can4";
        can_info = record { can_id = pos 4; baud_rate = pos 500 };
      }
      ∷ [];
}

generate_can_test_msg_lem_example :
    (text : Str) × (text' : Str) × (generate_fpu_can_test_msg two_cans
        (c_str "can3")
        test_mode
        (pos 4)
      ≡ some (success, text))
    × (generate_gpu_can_test_msg two_cans (c_str "can3") test_mode (pos 4) ≡ some (success, text))
    × (generate_fpu_can_test_msg two_cans (c_str "can4") listen_mode (pos 5)
        ≡ some (success, text'))
    × (generate_gpu_can_test_msg two_cans (c_str "can4") listen_mode (pos 5)
        ≡ some (success, text'))
    × ((text ≡ text') ↔ (pos 3 ≡ pos 4))
    × (generate_fpu_can_test_msg two_cans (c_str "far2") test_mode (pos 4) ≡ none)
    × (generate_gpu_can_test_msg two_cans (c_str "far2") test_mode (pos 4) ≡ none)
unfolding get_interface_index strcmp_eq is_this_interface_in_current_node
generate_can_test_msg_lem_example =
    generate_can_test_msg_lem two_cans (c_str "can3") (c_str "can4") (c_str "far2") test_mode
      listen_mode (pos 4) (pos 5) (pos 3) (pos 4)
      (refl, record { above = omega arith; below = omega arith })
      (refl, record { above = omega arith; below = omega arith }) refl
