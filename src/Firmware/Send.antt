-- ===== src/Firmware/Send.antt =====
-- src/firmware.c: `send_message`. The functions of src/base that put a packet on the wire are the
-- parameter `transmit`, from the call that is made to the code that it returns; `rs485_frame` and
-- `can_frame` are what the uninitialised local arrays hold. `none` is a fault: an unknown interface,
-- a frame that overflows, or a socket address that is NULL, which is read for the log.
pub mod Laws
use monitor_node.Prelude.{
  ℕ, ◌-◌, ℤ, error, success, pos, ltb_ℤ, Str, c_str, strcmp_eq, Bool, ◌||◌, Option, none, some,
  List, if◌then◌else◌, ◌>>=◌,
}
use monitor_node.InfoManager.{Manager}
use monitor_node.InfoManager.Interfaces.{
  get_interface_index, get_interface_status_by_index, get_base_send_func_by_index,
  get_mac_addr_by_index, get_linked_mac_addr_by_index, get_ip_name_by_index,
  get_linked_ip_addr_by_index, get_linked_port_id_by_index, get_temporary_sockfd_by_index,
  get_temporary_fd, get_channel_id_by_index, interface_at,
}
use monitor_node.StatusChooser.{receiving, closed}
use monitor_node.Firmware.Fill.{fill_message_to_max_msg_len}

abbrev pub max_rs485_data_length : ℕ
max_rs485_data_length = 64

abbrev pub max_can_data_length : ℕ
max_can_data_length = 8

-- A call of a base function, with the arguments that it is given. The socket address of an xy
-- interface is passed as the pointer that the table holds.
pub data Call : Type 0 where
  send_packet_by_mac_addr : Option Str → Str → Option Str → Option Str → Call
  send_packet_by_ip_addr : Option Str → Option Str → ℤ → Str → Call
  send_packet_xy : ℤ → Option ℕ → Str → Option Str → Option Str → Call
  send_packet_rs485 : ℤ → List ℕ → Call
  send_packet_can_fpu : ℤ → List ℕ → Call
  send_packet_can_gpu : ℤ → List ℕ → Call

pub record Sent : Type 0 where
  pub code : ℤ
  pub call : Option Call

pub record Wire : Type 0 where
  pub transmit : Call → ℤ
  pub rs485_frame : List ℕ
  pub can_frame : List ℕ

abbrev pub not_sent : Sent
not_sent = record { code = error; call = none }

module _ (w : Wire) where
  abbrev pub sent_by : Call → Sent
  sent_by c = record {
    code = if ltb_ℤ (w.transmit c) (pos 0) then error else success;
    call = some c;
  }

  -- The chain of comparisons with the name of the send function.
  unfoldable pub send_by_func : Manager → ℤ → Str → Str → Option Sent
  send_by_func m index func message =
      if strcmp_eq func (c_str "send_packet_by_mac_addr")
      then (get_mac_addr_by_index m index >>= λ src.
          get_linked_mac_addr_by_index m index >>= λ dest.
          get_ip_name_by_index m index >>= λ ip_name.
          some (sent_by (send_packet_by_mac_addr ip_name message src dest)))
      else if strcmp_eq func (c_str "send_packet_by_ip_addr")
      then (get_ip_name_by_index m index >>= λ ip_name.
          get_linked_ip_addr_by_index m index >>= λ ip_addr.
          get_linked_port_id_by_index m index >>= λ port.
          some (sent_by (send_packet_by_ip_addr ip_name ip_addr port message)))
      else if strcmp_eq func (c_str "send_packet_xy")
      then (get_mac_addr_by_index m index >>= λ src.
          get_linked_mac_addr_by_index m index >>= λ dest.
          get_temporary_sockfd_by_index m index >>= λ sockfd. interface_at m index >>= λ f.
          f.eth_info.sock_addr >>= λ bb.
          some (sent_by (send_packet_xy sockfd (some bb) message src dest)))
      else if strcmp_eq func (c_str "send_packet_rs485")
      then (fill_message_to_max_msg_len message w.rs485_frame (max_rs485_data_length - 1)
          >>= λ frame.
              get_temporary_fd m index >>= λ fd. some (sent_by (send_packet_rs485 fd frame)))
      else if strcmp_eq func (c_str "send_packet_can_fpu")
      then (get_channel_id_by_index m index >>= λ can_id.
          fill_message_to_max_msg_len message w.can_frame (max_can_data_length - 1) >>= λ frame.
          some (sent_by (send_packet_can_fpu can_id frame)))
      else if strcmp_eq func (c_str "send_packet_can_gpu")
      then (get_channel_id_by_index m index >>= λ can_id.
          fill_message_to_max_msg_len message w.can_frame (max_can_data_length - 1) >>= λ frame.
          some (sent_by (send_packet_can_gpu can_id frame)))
      else some not_sent

  unfoldable pub send_message : Manager → Option Str → Option Str → Option Sent
  unfolding send_by_func
  send_message m none message = some not_sent
  send_message m (some source_interface) none = some not_sent
  send_message m (some source_interface) (some message) =
      let index = get_interface_index m source_interface in
      get_interface_status_by_index m index >>= λ status.
      get_base_send_func_by_index m index >>= λ func.
      if strcmp_eq status receiving || strcmp_eq status closed
      then some not_sent
      else send_by_func m index func message
