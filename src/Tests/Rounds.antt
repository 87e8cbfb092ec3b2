-- ===== src/Tests/Rounds.antt =====
-- Runs of a tester of src/one_interface_operator.c, and of two syncs.
use monitor_node.Prelude.{
  Yields, All, length, error, success, true, false, none, ◌≡◌, refl, ℤ, pos, Str, c_str, strcmp_eq,
  name_in, print_int, print_unsigned, some, List, [], ◌∷◌, tdiv, to_i32, ◌-ℤ◌,
}
use monitor_node.InfoManager.{Manager, InterfaceInfo}
use monitor_node.InfoManager.Interfaces.{
  get_interface_index, get_interface_status, is_this_interface_in_current_node,
}
use monitor_node.InfoManager.Interfaces.{get_interface_name_by_linked_interface_name}
use monitor_node.Firmware.Send.{Sent, send_packet_by_ip_addr, send_message}
use monitor_node.OneInterface.Choose.{
  sync_the_communication_infos, update_status_in_current_round,
  choose_communication_info_operation_at_specified_interface,
}
use monitor_node.Firmware.Status.{set_status}
use monitor_node.StatusChooser.{status_chooser_transfer, work_at_each_round}
use monitor_node.OneInterface.Round.{
  send_packages, test_upon_one_interface_in_one_time, World, Event, sent, operate,
}
use monitor_node.OneInterface.Round.Once.{test_once}
use monitor_node.OneInterface.Round.Packages.{IsPackage, packet_call, send_packages_by_ip_addr}
use monitor_node.OneInterface.Round.Laws.{Synced, operate-Synced}
use monitor_node.OneInterface.{Node, current_round_at}
use monitor_node.MsgGenerator.{msg_generator_transfer, generate_eth_test_msg}
use monitor_node.OneInterface.Choose.Laws.{sync_unique}
use monitor_node.Tests.Fixtures.{interface_of, node, platform}

-- A sender whose link leads to the center.
abbrev up_if : InterfaceInfo
up_if =
    interface_of (c_str "test") (c_str "eth1") (c_str "center") (c_str "send_packet_by_ip_addr")
      (c_str "receive_packet_by_ip_addr") (c_str "generate_eth_test_msg") (c_str "sending")

abbrev up_node : Manager
up_node = record node { interface_info_array = up_if ∷ [] }

-- Every call of a base function gives the code.
abbrev world : ℤ → World
world code = record {
  platform = platform;
  is_up = λ s. true;
  clock = λ i. pos 0;
  wire = λ i. record { transmit = λ c. code; rs485_frame = []; can_frame = [] };
  sync_wire = λ i j. record { transmit = λ c. code; rs485_frame = []; can_frame = [] };
  disk = record { opens = true; locks = true; writes = none };
  unset = [];
}

-- The packet of a text.
abbrev packet : ℤ → Str → Sent
packet code text = record {
  code = code;
  call =
      some (send_packet_by_ip_addr (some (c_str "eth0")) (some (c_str "10.0.0.1")) (pos 8000) text);
}

operate-Synced_example :
    Yields
      (Synced (world error) (pos 0) 0 2 up_node)
      (operate (world error) sync_the_communication_infos (pos 0) up_node)
operate-Synced_example = operate-Synced (world error) (pos 0) up_node

-- A tester whose link does not lead to the center.
abbrev tester_if : InterfaceInfo
tester_if =
    interface_of (c_str "test") (c_str "eth1") (c_str "far1") (c_str "send_packet_by_ip_addr")
      (c_str "receive_packet_by_ip_addr") (c_str "generate_eth_test_msg") (c_str "sending")

-- The tester's node, with the round of its last call.
abbrev tester : ℤ → Node
tester round = record {
  manager = record node { interface_info_array = tester_if ∷ [] };
  initialized_flag = pos 0;
  cnt_array = some (0 ∷ []);
  cnt_mutex_array = some 1;
  round_array = some (round ∷ []);
}

-- In round 2 it sends one package.
test_in_round_2 :
    test_upon_one_interface_in_one_time (world success) (tester (pos 1)) (pos 20) (c_str "eth1") 1
    ≡ some (tester (pos 2), sent (packet success (c_str "round 2 test for eth1")) ∷ [])
unfolding test_upon_one_interface_in_one_time get_interface_index strcmp_eq current_round_at to_i32
    tdiv ◌-ℤ◌ update_status_in_current_round set_status get_interface_status status_chooser_transfer
    name_in work_at_each_round msg_generator_transfer generate_eth_test_msg send_message
    choose_communication_info_operation_at_specified_interface is_this_interface_in_current_node
    get_interface_name_by_linked_interface_name print_int print_unsigned
test_in_round_2 = refl

test_once_example :
    test_upon_one_interface_in_one_time (world success) (tester (pos 2)) (pos 29) (c_str "eth1") 20
    ≡ some (tester (pos 2), [])
unfolding current_round_at to_i32 tdiv ◌-ℤ◌
test_once_example =
    test_once (world success) (tester (pos 1)) (c_str "eth1") (pos 20) (pos 29) 1 20
      (tester (pos 2)) (sent (packet success (c_str "round 2 test for eth1")) ∷ []) test_in_round_2
      refl refl

sync_unique_example :
    (is_this_interface_in_current_node up_node (c_str "center") ≡ false)
    × (get_interface_name_by_linked_interface_name up_node (c_str "center") ≡ some (c_str "eth1"))
    × (c_str "eth1" ≡ c_str "eth1")
unfolding choose_communication_info_operation_at_specified_interface
    is_this_interface_in_current_node get_interface_name_by_linked_interface_name strcmp_eq
sync_unique_example = sync_unique up_node (pos 0) (pos 0) up_if up_if refl refl refl refl refl

send_packages_by_ip_addr_example :
    let m = up_node in
    (m' : Manager) × (es : List Event) × (send_packages
        (world error)
        20
        0
        (pos 0)
        (c_str "eth1")
        (c_str "hi")
        m
      ≡ some (m', es))
    × (length es ≡ 20)
    × All
        (IsPackage
          (world error)
          (c_str "eth1")
          (c_str "hi")
          (pos 0)
          (packet_call (world error) (c_str "eth1") (c_str "hi") (pos 0) up_if))
        es
unfolding get_interface_index strcmp_eq
send_packages_by_ip_addr_example =
    send_packages_by_ip_addr (world error) (c_str "eth1") (c_str "hi") (pos 0) 20 0 up_node up_if
      refl refl (refl, refl) refl
