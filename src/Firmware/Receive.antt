-- ===== src/Firmware/Receive.antt =====
-- src/firmware.c: `receive_message` and `deal_async`. The functions of src/base that take a packet
-- off the wire are the parameter `answer`, from the call that is made to the code that it returns and
-- the local buffer after it; `creates` is what `pthread_create` answers. `none` is a fault: an
-- unknown interface, or a buffer without a terminating zero, which `strdup` leaves.
pub mod Laws
use monitor_node.Prelude.{
  ℕ, ℤ, pos, eqb_ℤ, ltb_ℤ, error, success, Str, c_str, strcmp_eq, text_at, Bool, true, false, ◌||◌,
  Option, none, some, List, if◌then◌else◌, ◌>>=◌,
}
use monitor_node.InfoManager.{Manager}
use monitor_node.InfoManager.Interfaces.{
  get_interface_index, get_interface_status_by_index, get_base_receive_func_by_index,
  get_ip_name_by_index, get_ip_addr_by_index, get_port_id_by_index, get_temporary_sockfd_by_index,
  get_temporary_fd, get_channel_id_by_index,
}
use monitor_node.StatusChooser.{sending, closed}

-- A call of a base function, with its arguments but for the buffer and its length.
pub data Listening : Type 0 where
  receive_packet_by_mac_addr : Option Str → ℤ → Listening
  receive_packet_by_ip_addr : Option Str → Option Str → ℤ → ℤ → Listening
  receive_packet_xy : ℤ → ℤ → Listening
  receive_packet_can_fpu : ℤ → ℤ → Listening
  receive_packet_can_gpu : ℤ → ℤ → Listening
  receive_packet_rs485 : ℤ → ℤ → Listening

-- What a thread is given; a pointer that is NULL is `none`.
pub record DealData : Type 0 where
  pub linked_node : Option Str
  pub listened_interface : Option Str
  pub msg : Option Str

-- The code, `none` where the function ends without a `return`, and what was handed to a new thread.
pub record Received : Type 0 where
  pub code : Option ℤ
  pub handed : Option DealData

pub record Line : Type 0 where
  pub answer : Listening → ℤ × List ℕ
  pub creates : ℤ

abbrev pub not_received : Received
not_received = record { code = some error; handed = none }

-- The body of a block: the six blocks differ in the call only.
unfoldable pub receive_by : Line → Str → Str → Listening → Option Received
receive_by l linked_node source_interface c =
    let (code, temp_msg) = l.answer c in
    if ltb_ℤ code (pos 0)
    then some not_received
    else text_at temp_msg >>= λ msg. some (
        if eqb_ℤ l.creates (pos 0)
        then record {
          code = some success;
          handed = some record {
            linked_node = some linked_node;
            listened_interface = some source_interface;
            msg = some msg;
          };
        }
        else not_received)

-- The chain of comparisons with the name of the receive function.
unfoldable pub call_by_func : Manager → ℤ → Str → ℤ → Option (Option Listening)
call_by_func m index func wait =
    if strcmp_eq func (c_str "receive_packet_by_mac_addr")
    then (get_ip_name_by_index m index >>= λ ip_name.
        some (some (receive_packet_by_mac_addr ip_name wait)))
    else if strcmp_eq func (c_str "receive_packet_by_ip_addr")
    then (get_ip_name_by_index m index >>= λ ip_name. get_ip_addr_by_index m index >>= λ ip_addr.
        get_port_id_by_index m index >>= λ port.
        some (some (receive_packet_by_ip_addr ip_name ip_addr port wait)))
    else if strcmp_eq func (c_str "receive_packet_xy")
    then (get_temporary_sockfd_by_index m index >>= λ sockfd.
        some (some (receive_packet_xy sockfd wait)))
    else if strcmp_eq func (c_str "receive_packet_can_fpu")
    then (get_channel_id_by_index m index >>= λ can_id.
        some (some (receive_packet_can_fpu can_id wait)))
    else if strcmp_eq func (c_str "receive_packet_can_gpu")
    then (get_channel_id_by_index m index >>= λ can_id.
        some (some (receive_packet_can_gpu can_id wait)))
    else if strcmp_eq func (c_str "receive_packet_rs485")
    then (get_temporary_fd m index >>= λ fd. some (some (receive_packet_rs485 fd wait)))
    else some none

abbrev pub receive_call : Line → Str → Str → Option Listening → Option Received
receive_call l linked_node source_interface none = some record { code = none; handed = none }
receive_call l linked_node source_interface (some c) = receive_by l linked_node source_interface c

unfoldable pub receive_message : Line → Manager → Option Str → Option Str → ℤ → Option Received
unfolding receive_by call_by_func
receive_message l m none source_interface wait = some not_received
receive_message l m (some linked_node) none wait = some not_received
receive_message l m (some linked_node) (some source_interface) wait =
    let index = get_interface_index m source_interface in
    get_interface_status_by_index m index >>= λ status.
    if strcmp_eq status sending || strcmp_eq status closed
    then some not_received
    else (get_base_receive_func_by_index m index >>= λ func.
        call_by_func m index func wait >>= λ c. receive_call l linked_node source_interface c)

-- The three NULL checks, and the call of the function that deals with the message.
abbrev pub deal_with_data :
    {S : Type 0}
    → (Str → Str → Str → S → Option S)
    → Option Str
    → Option Str
    → Option Str
    → S
    → Option (S × Bool)
deal_with_data deal none li msg s = some (s, false)
deal_with_data deal (some ln) none msg s = some (s, false)
deal_with_data deal (some ln) (some li) none s = some (s, false)
deal_with_data deal (some ln) (some li) (some msg) s = deal ln li msg s >>= λ s1. some (s1, true)

-- The state after the thread, and whether it freed what it was given.
unfoldable pub deal_async :
    {S : Type 0} → (Str → Str → Str → S → Option S) → DealData → S → Option (S × Bool)
deal_async deal d s = deal_with_data deal d.linked_node d.listened_interface d.msg s
