-- ===== src/Tests/Firmware.antt =====
-- Runs of the theorems about src/firmware.c.
use monitor_node.Prelude.{
  ◌≡◌, refl, pos, success, c_str, strcmp_eq, name_in, text_at, some, [], ◌∷◌, ◌++◌, replicate,
  length, arith, true,
}
use monitor_node.InfoManager.{InterfaceInfo}
use monitor_node.InfoManager.Interfaces.{
  interface_at, get_interface_index, get_interface_status, is_this_interface_in_current_node,
}
use monitor_node.InfoManager.Status.{is_valid_status, set_interface_status, with_status}
use monitor_node.InfoManager.Status.Laws.{StatusesValid}
use monitor_node.Firmware.Fill.{fill_message_to_max_msg_len}
use monitor_node.Firmware.Fill.Laws.{pad, IsText, fill_message_to_max_msg_len_lem}
use monitor_node.Firmware.Send.{send_packet_rs485, Wire, sent_by, send_message}
use monitor_node.Firmware.Send.Laws.{frame, Ready, send_message_rs485}
use monitor_node.Firmware.Status.{Outcome, set_status}
use monitor_node.Firmware.Status.Laws.{Obeys, verdict, set_status-Obeys, set_status-StatusesValid}
use monitor_node.Tests.Fixtures.{node, rs_if}

-- Bases that accept every packet, and frames that hold sevens.
abbrev wire : Wire
wire = record {
  transmit = λ c. pos 0;
  rs485_frame = replicate 63 7 ++ 7 ∷ [];
  can_frame = replicate 7 7 ++ 7 ∷ [];
}

hello_IsText : IsText (c_str "hi")
hello_IsText = (omega arith, (omega arith, tt))

fill_message_to_max_msg_len_lem_example :
    fill_message_to_max_msg_len (c_str "hi") (7 ∷ 7 ∷ 7 ∷ 7 ∷ []) 3
    ≡ some (pad 3 (c_str "hi") ++ 0 ∷ [])
fill_message_to_max_msg_len_lem_example =
    fill_message_to_max_msg_len_lem (c_str "hi") (7 ∷ 7 ∷ 7 ∷ []) 7 hello_IsText (omega arith)

rs-Ready :
    Ready wire node
      (c_str "rs0")
      (c_str "hi")
      rs_if
      (replicate 63 7)
      7
      (c_str "send_packet_rs485")
      wire.rs485_frame
      63
unfolding get_interface_index strcmp_eq
rs-Ready = record {
  at = refl;
  open_ = (refl, refl);
  func_is = refl;
  held = refl;
  size = refl;
  text = hello_IsText;
}

send_message_rs485_example :
    (send_message wire node (some (c_str "rs0")) (some (c_str "hi"))
      ≡ some (sent_by wire (send_packet_rs485 (pos 5) (frame 63 (c_str "hi")))))
    × (length (frame 63 (c_str "hi")) ≡ 64)
    × (text_at (frame 63 (c_str "hi")) ≡ some (c_str "hi"))
send_message_rs485_example =
    send_message_rs485 wire node (c_str "rs0") (c_str "hi") rs_if (replicate 63 7) 7 rs-Ready

set_status-Obeys_example :
    (f : InterfaceInfo) × (o : Outcome) × (interface_at node
        (get_interface_index node (c_str "rs0"))
      ≡ some f)
    × (set_status (λ s. true) node (some (c_str "rs0")) (some (c_str "closed")) ≡ some o)
    × Obeys node (c_str "rs0") (c_str "closed") (verdict f (c_str "closed")) o
unfolding is_this_interface_in_current_node strcmp_eq
set_status-Obeys_example = set_status-Obeys (λ s. true) node (c_str "rs0") (c_str "closed") refl

-- The call of the example returns.
closed_outcome : Outcome
closed_outcome = record {
  code = success;
  manager = (set_interface_status node (c_str "rs0") (c_str "closed")).1;
  commands = [];
}

set_status-StatusesValid_example : StatusesValid closed_outcome.manager
unfolding is_valid_status strcmp_eq set_status set_interface_status closed_outcome name_in
    get_interface_status get_interface_index with_status
set_status-StatusesValid_example =
    set_status-StatusesValid (λ s. true) node (some (c_str "rs0")) (some (c_str "closed"))
      closed_outcome (refl, (refl, (refl, tt))) refl
