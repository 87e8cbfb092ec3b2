-- ===== src/Tests/Devices.antt =====
-- Runs of the initializers, and of the Ethernet drivers.
use monitor_node.Prelude.{
  ◌≡◌, refl, ℤ, pos, negsuc, success, Str, c_str, strcmp_eq, text_at, true, ◌++◌, none, some, [],
  ◌∷◌, replicate, Yields, arith, ◌>>=◌,
}
use monitor_node.InfoManager.{Manager, InterfaceInfo}
use monitor_node.InfoManager.Interfaces.{get_interface_index}
use monitor_node.Initializer.Common.{Host}
use monitor_node.Initializer.Eth.{copy_network}
use monitor_node.Initializer.Eth.Network.{copy_network-network_of}
use monitor_node.Initializer.Serial.{rs485_initializer_normal}
use monitor_node.Initializer.Serial.Refines.{
  Devices, Line, Does, params_of, open_device, rs485_initializer_normal-Does,
}
use monitor_node.EthMac.Address.{string_to_mac_address}
use monitor_node.EthMac.Address.Laws.{string_to_mac_address-mac_text}
use monitor_node.EthMac.Packet.{Macs, send_packet, packet_of, receive_packet_by_mac_addr}
use monitor_node.EthMac.Packet.Laws.{gets, send_packet-receive}
use monitor_node.EthMac.Xy.{receive_packet_xy}
use monitor_node.EthMac.Xy.Laws.{as_success, receive_packet_xy-by_mac_addr}
use monitor_node.EthIp.{UdpCalls, send_packet_by_ip_addr, receive_data_udp}
use monitor_node.EthIp.Laws.{Closed, Closes, udp-Closes}
use monitor_node.Tests.Fixtures.{node, eth_if, rs_if}

-- Two interfaces on one serial line, which is closed at first.
abbrev pub serial_if : Str → ℤ → InterfaceInfo
serial_if name flag = record rs_if {
  interface_name = name;
  interface_type = c_str "rs485";
  rs485_info = record rs_if.rs485_info { rs485_dev_path = some (c_str "tty1") };
  initialized_flag = flag;
}

abbrev pub serial_node : ℤ → Manager
serial_node flag = record node {
  interface_info_array = eth_if ∷ serial_if (c_str "rs0") flag ∷ serial_if (c_str "rs1") flag ∷ [];
}

abbrev pub no_devices : Devices
no_devices p = none

abbrev host : Host
host = record {
  tty = record { open_answer = λ p. pos 4; found = none; sets = true };
  com_can_std_cfg_init = λ c b. pos 0;
  socket_answer = pos 6;
  ioctl_answer = pos 0;
  bind_answer = pos 0;
  unset_ip_t = replicate 16 7;
}

closed-Line :
    Line
      (serial_node (negsuc 0))
      (c_str "rs1")
      (serial_if (c_str "rs1") (negsuc 0))
      (c_str "tty1")
      no_devices
unfolding get_interface_index strcmp_eq
closed-Line = record {
  at = refl;
  is_serial = refl;
  path_is = refl;
  refines =
      ((λ e. cc), ((λ e. (c_str "tty1", refl, refl)), ((λ e. (c_str "tty1", refl, refl)), tt)));
}

rs485_initializer_normal-Does_example :
    Does
      (open_device host (params_of (serial_if (c_str "rs1") (negsuc 0))) (c_str "tty1") no_devices)
      (rs485_initializer_normal host (serial_node (negsuc 0)) (c_str "rs1"))
rs485_initializer_normal-Does_example =
    rs485_initializer_normal-Does (serial_node (negsuc 0)) (c_str "rs1")
      (serial_if (c_str "rs1") (negsuc 0)) (c_str "tty1") no_devices host closed-Line

copy_network-network_of_example :
    (copy_network (c_str "1.2.3.4") 0 0 (replicate 16 7) >>= text_at) ≡ some (c_str "1.2.3.0")
copy_network-network_of_example =
    copy_network-network_of (c_str "1") (c_str "2") (c_str "3") (c_str "4") (replicate 16 7)
      ((refl, omega arith), tt) ((refl, omega arith), tt) ((refl, omega arith), tt) refl
      (omega arith)

string_to_mac_address-mac_text_example :
    string_to_mac_address (some (c_str "00:1f:0a:ff:02:a0")) (replicate 6 9)
    ≡ some (pos 0, 0 ∷ 31 ∷ 10 ∷ 255 ∷ 2 ∷ 160 ∷ [])
string_to_mac_address-mac_text_example =
    string_to_mac_address-mac_text 0 31 10 255 2 160 9 9 9 9 9 9
      (omega arith, (omega arith, (omega arith, (omega arith, (omega arith, (omega arith, tt))))))

abbrev macs : Macs
macs = record { srcmac = replicate 6 1; dstmac = replicate 6 2 }

send_packet-receive_example :
    (send_packet (gets [] 3) macs (c_str "hi") ≡ record {
      code = success;
      macs = macs;
      put = some (packet_of macs (c_str "hi"));
      closed_fds = pos 3 ∷ [];
    })
    × (receive_packet_by_mac_addr
          (gets (packet_of macs (c_str "hi" ++ 0 ∷ replicate 43 0)) 4)
          (some (c_str "eth0"))
        ≡ some record { code = success; msg = some (c_str "hi"); closed_fds = pos 4 ∷ [] })
    × (receive_packet_by_mac_addr (gets (packet_of macs (c_str "hi")) 4) (some (c_str "eth0"))
        ≡ none)
send_packet-receive_example =
    send_packet-receive macs (c_str "hi") 43 3 4 (c_str "eth0") (refl, refl)
      (omega arith, (omega arith, tt)) (omega arith)

-- A packet of another protocol.
receive_packet_xy-by_mac_addr_example :
    receive_packet_xy record { select = pos 1; packet = some (replicate 60 0); sendto = pos 0 } ≡ (
      receive_packet_by_mac_addr (gets (replicate 60 0) 4) (some (c_str "eth0")) >>= λ r.
      some (as_success r))
receive_packet_xy-by_mac_addr_example =
    receive_packet_xy-by_mac_addr 4 (c_str "eth0") (replicate 60 0)

-- The first `bind` fails.
abbrev udp_calls : UdpCalls
udp_calls = record {
  socket = pos 3;
  inet_pton = pos 1;
  ioctl = pos 0;
  sendto = pos 2;
  setsockopt = pos 0;
  binds = negsuc 0 ∷ pos 0 ∷ [];
  recvfrom = some (c_str "hi");
  unset_ip_t = replicate 16 7;
}

udp-Closes_example :
    Yields (Closed (pos 3 ∷ [])) (
      send_packet_by_ip_addr udp_calls
        (some (c_str "eth0"))
        (some (c_str "1.2.3.4"))
        (pos 80)
        (some (c_str "hi")))
    × Yields
        (Closes (pos 3 ∷ []))
        (receive_data_udp udp_calls (some (c_str "eth0")) (some (c_str "1.2.3.4")))
udp-Closes_example =
    udp-Closes udp_calls (some (c_str "eth0")) (some (c_str "1.2.3.4")) (pos 80) (c_str "hi")
