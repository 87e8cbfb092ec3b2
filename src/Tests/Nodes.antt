-- ===== src/Tests/Nodes.antt =====
-- A run of the threads of a node: a listener hands a message over, which is then dealt with.
use monitor_node.Prelude.{
  ◌≡◌, refl, pos, c_str, strcmp_eq, name_in, text_at, print_int, print_unsigned, tdiv, to_i32, ◌-ℤ◌,
  none, true, some, [], ◌∷◌,
}
use monitor_node.InfoManager.{Manager}
use monitor_node.InfoManager.Interfaces.{get_interface_index, get_interface_status}
use monitor_node.Firmware.Receive.{
  Line, DealData, receive_message, receive_by, call_by_func, deal_async,
}
use monitor_node.Firmware.Receive.Laws.{data_of}
use monitor_node.StatusChooser.{status_chooser_transfer, work_at_each_round}
use monitor_node.MsgGenerator.{msg_generator_transfer, generate_eth_test_msg}
use monitor_node.InfoManager.Json.{Platform}
use monitor_node.InfoManager.Sync.{update_communication_info_array_from_json, update_from_document}
use monitor_node.Firmware.Status.{set_status}
use monitor_node.OneInterface.{Node, current_round_at}
use monitor_node.OneInterface.Choose.{update_status_in_current_round}
use monitor_node.OneInterface.Listen.{Heard, listen_upon_one_interface_in_one_time}
use monitor_node.OneInterface.Deal.{deal_with_mnt}
use monitor_node.OneInterface.System.{System, Reach, start, then_, listened, dealt}
use monitor_node.OneInterface.System.Invariant.{Sound, Reach-Sound}
use monitor_node.Tests.Fixtures.{node, platform, eth_if, rs_if, can_if}

abbrev listener : Node
listener = record {
  manager = node;
  initialized_flag = pos 0;
  cnt_array = some (0 ∷ 0 ∷ 0 ∷ []);
  cnt_mutex_array = some 3;
  round_array = some (pos 0 ∷ pos 0 ∷ pos 0 ∷ []);
}

abbrev line : Line
line = record { answer = λ c. (pos 0, 104 ∷ 105 ∷ 0 ∷ []); creates = pos 0 }

abbrev worked : Manager
worked = record node {
  interface_info_array = record eth_if { last_work_time = pos 12 } ∷ rs_if ∷ can_if ∷ [];
}

abbrev message : DealData
message = data_of (c_str "node2") (c_str "eth0") (c_str "hi")

abbrev heard : Heard
heard = record {
  node = record listener { manager = worked };
  commands = [];
  received = record { code = some (pos 0); handed = some message };
}

listens :
    listen_upon_one_interface_in_one_time
      (λ s. true)
      line
      listener
      (pos 12)
      (c_str "node2")
      (c_str "eth0")
    ≡ some heard
unfolding listen_upon_one_interface_in_one_time update_status_in_current_round set_status
    get_interface_index get_interface_status strcmp_eq name_in status_chooser_transfer
    work_at_each_round current_round_at to_i32 tdiv ◌-ℤ◌ receive_message receive_by call_by_func
    text_at
listens = refl

-- No text is a document.
abbrev quiet : Platform
quiet = record platform { cjson_parse = λ s. none }

deals :
    deal_async
      (λ ln li msg t. deal_with_mnt quiet [] t (pos 12) (pos 12) ln li msg)
      message
      heard.node
    ≡ some (heard.node, true)
unfolding deal_async deal_with_mnt get_interface_index strcmp_eq name_in current_round_at
    msg_generator_transfer generate_eth_test_msg print_int print_unsigned to_i32 tdiv ◌-ℤ◌
    update_communication_info_array_from_json update_from_document
deals = refl

-- The run.
abbrev begun : System
begun = record { node = listener; pending = [] }

abbrev done : System
done = record { node = heard.node; pending = [] }

run : Reach begun done
run =
    then_ begun record { node = heard.node; pending = message ∷ [] } done
      (then_ begun begun record { node = heard.node; pending = message ∷ [] } (start begun)
        (listened (λ s. true) line listener [] (pos 12) (c_str "node2") (c_str "eth0") heard
          listens))
      (dealt quiet [] heard.node heard.node [] [] message (pos 12) (pos 12) true deals)

Reach-Sound_example : Sound begun done
Reach-Sound_example = Reach-Sound begun done run tt
