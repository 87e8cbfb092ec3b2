-- ===== src/Tests/Fixtures.antt =====
-- A node with an Ethernet, an RS-485 and a CAN interface, in the layout of src/base/info_manager.h.
use monitor_node.Prelude.{ℕ, ℤ, pos, negsuc, Str, c_str, none, some, [], ◌∷◌}
use monitor_node.InfoManager.{
  EthInfo, CanInfo, Rs485Info, InterfaceInfo, CommunicationInfo, Manager,
}
use monitor_node.InfoManager.Json.{Platform}
use monitor_node.Tests.Codec.{print_document, parse_document}

abbrev eth_info_0 : EthInfo
eth_info_0 = record {
  ip_name = some (c_str "eth0");
  ip_addr = some (c_str "10.0.0.1");
  net_mask = none;
  mac_addr = none;
  port_id = pos 8000;
  temporary_sockfd = negsuc 0;
  sock_addr = none;
}

abbrev can_info_3 : CanInfo
can_info_3 = record { can_id = pos 3; baud_rate = pos 500 }

abbrev rs485_info_5 : Rs485Info
rs485_info_5 = record {
  rs485_dev_path = none;
  rs485_gpio_number = pos 1;
  databits = pos 8;
  stopbits = pos 1;
  paritybits = 110;
  baud_rate = pos 9600;
  temporary_fd = pos 5;
}

-- An interface with its mode, name, link, send and receive functions, generator and status.
abbrev pub interface_of : Str → Str → Str → Str → Str → Str → Str → InterfaceInfo
interface_of mode' name linked send_func receive_func generator status' = record {
  mode = mode';
  located_node = c_str "node1";
  interface_name = name;
  interface_type = c_str "eth";
  linked_node = c_str "node2";
  linked_interface_name = linked;
  linked_interface_type = c_str "eth";
  center_interface_name = c_str "center";
  status_chooser = c_str "work_at_each_round";
  base_send_func = send_func;
  base_receive_func = receive_func;
  msg_generator_of_sender = generator;
  initializer_name = c_str "";
  closer_name = c_str "";
  eth_info = eth_info_0;
  linked_eth_info = eth_info_0;
  can_info = can_info_3;
  linked_can_info = can_info_3;
  rs485_info = rs485_info_5;
  linked_rs485_info = rs485_info_5;
  status = status';
  duplex = c_str "half";
  initialized_flag = negsuc 0;
  last_work_time = pos 0;
}

abbrev pub eth_if : InterfaceInfo
eth_if =
    interface_of (c_str "listen") (c_str "eth0") (c_str "far0") (c_str "send_packet_by_ip_addr")
      (c_str "receive_packet_by_ip_addr") (c_str "generate_eth_test_msg") (c_str "receiving")

abbrev pub rs_if : InterfaceInfo
rs_if =
    interface_of (c_str "test") (c_str "rs0") (c_str "far1") (c_str "send_packet_rs485")
      (c_str "receive_packet_rs485") (c_str "generate_rs485_test_msg") (c_str "sending")

abbrev pub can_if : InterfaceInfo
can_if =
    interface_of (c_str "test") (c_str "can3") (c_str "far2") (c_str "send_packet_can_fpu")
      (c_str "receive_packet_can_fpu") (c_str "generate_fpu_can_test_msg") (c_str "sending")

abbrev pub result_of : Str → ℕ → ℤ → ℤ → CommunicationInfo
result_of name rx' round flag = record {
  linked_node = c_str "node2";
  interface_name = name;
  updated_time = pos 100;
  tx = 20;
  rx = rx';
  current_round = round;
  if_newest_flag = flag;
}

-- Three interfaces, three results, and a batch that ended at index 1.
abbrev pub node : Manager
node = record {
  interface_info_array = eth_if ∷ rs_if ∷ can_if ∷ [];
  communication_info_array =
      result_of (c_str "eth0") 0 (pos 0) (pos 1)
      ∷ result_of (c_str "rs0") 19 (pos 4) (negsuc 0)
      ∷ result_of (c_str "can3") 20 (pos 4) (pos 1)
      ∷ [];
  test_begin_time = pos 0;
  memoried = 1;
}

-- Times are printed as one character, and read from it; documents are those of Codec.
abbrev pub platform : Platform
platform = record {
  Tm = ℤ;
  localtime = λ t. some t;
  strftime = λ n t. some (c_str "d");
  strptime = λ s. some (pos 100);
  mktime = λ t. t;
  cjson_print = print_document;
  cjson_parse = parse_document;
  unset_time = pos 0;
  unset_text = [];
}
