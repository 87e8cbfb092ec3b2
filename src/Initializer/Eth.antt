-- ===== src/Initializer/Eth.antt =====
-- src/initializer_closer_lib.c: the initializers and closers of Ethernet interfaces. Of the socket
-- address that `eth_initializer_xy` fills in, the model has the pointer only.
pub mod Network
use monitor_node.Prelude.{
  ℕ, suc, ℤ, pos, negsuc, ltb_ℤ, error, Str, c_str, strcmp_eq, text_at, store, take, Bool, false,
  Option, none, some, List, [], ◌∷◌, ◌++◌, ◌==◌, if◌then◌else◌, ◌>>=◌,
}
use monitor_node.InfoManager.{Manager, InterfaceInfo}
use monitor_node.InfoManager.Status.{set_interface_status}
use monitor_node.InfoManager.Interfaces.{
  get_ip_name_by_index, get_ip_addr_by_index, get_temporary_sockfd_by_index,
}
use monitor_node.InfoManager.Interfaces.Parameters.{get_net_mask_by_index, get_sock_addr_value_addr}
use monitor_node.Firmware.Status.{sending_and_receiving}
use monitor_node.Initializer.Common.{
  Host, Effect, ran, socket_made, closed_fd, Outcome, same_text, marked, unless_initialized,
  unless_closed,
}

-- The entry is an Ethernet interface with the device name.
abbrev pub on_ip_name : Option Str → InterfaceInfo → Option Bool
on_ip_name ip_name f =
    if strcmp_eq f.interface_type (c_str "eth")
    then same_text ip_name f.eth_info.ip_name
    else some false

-- The loop that copies the address into `ip_t` from index `i` on, up to the third dot, of which `cnt`
-- were met.
unfoldable pub copy_network : Str → ℕ → ℕ → List ℕ → Option (List ℕ)
copy_network [] i cnt ip_t = some ip_t
copy_network (c ∷ s) i cnt ip_t = store ip_t i c >>= λ stored.
    let cnt1 = if c == b'.' then suc cnt else cnt in
    let rest = copy_network s (suc i) cnt1 stored in
    if cnt1 == 3
    then (store stored (suc i) b'0' >>= λ zeroed. store zeroed (suc (suc i)) 0)
    else rest

abbrev pub up_commands : Str → Str → Str → List Effect
up_commands ip_name ip_addr mask =
    ran (take 255 (c_str "ifconfig " ++ (ip_name ++ c_str " up")))
    ∷ ran (
        take 255 (
          c_str "ifconfig "
          ++ (ip_name ++ (c_str " " ++ (ip_addr ++ (c_str " netmask " ++ mask))))))
    ∷ []

abbrev pub route_command : Str → Str → Str → Effect
route_command ip_t mask ip_name = ran (
    take 255 (
      c_str "sudo route add -net "
      ++ (ip_t ++ (c_str " netmask " ++ (mask ++ (c_str " dev " ++ ip_name))))))

-- The part that both initializers begin with: the two pointers that are checked for NULL, and then
-- the device name, which is not.
abbrev pub with_address : Manager → ℤ → (Str → Str → Str → Option Outcome) → Option Outcome
with_address m i k = get_ip_addr_by_index m i >>= λ addr. get_net_mask_by_index m i >>= λ net_mask.
    get_ip_name_by_index m i >>= λ ip_name. with_pointers addr net_mask ip_name
  where
    with_pointers : Option Str → Option Str → Option Str → Option Outcome
    with_pointers none net_mask ip_name = some record { code = error; manager = m; effects = [] }
    with_pointers (some addr) none ip_name = some record { code = error; manager = m; effects = [] }
    with_pointers (some addr) (some mask) none = none
    with_pointers (some addr) (some mask) (some ip_name) = k addr mask ip_name

abbrev pub with_eth_flag : ℤ → InterfaceInfo → InterfaceInfo
with_eth_flag flag f = record f { initialized_flag = flag }

abbrev pub with_socket : ℤ → ℤ → InterfaceInfo → InterfaceInfo
with_socket flag sockfd f = record f {
  initialized_flag = flag;
  eth_info = record f.eth_info { temporary_sockfd = sockfd };
}

abbrev pub with_sock_addr : Option ℕ → InterfaceInfo → InterfaceInfo
with_sock_addr addr f = record f { eth_info = record f.eth_info { sock_addr = addr } }

unfoldable pub eth_initializer_normal : Host → Manager → Str → Option Outcome
unfolding copy_network
eth_initializer_normal h m name = unless_initialized m name (λ i.
    with_address m i (λ addr mask ip_name.
      let m1 = (set_interface_status m name sending_and_receiving).1 in
      copy_network addr 0 0 h.unset_ip_t >>= λ buffer. text_at buffer >>= λ ip_t.
      marked (on_ip_name (some ip_name)) (with_eth_flag (pos 1)) m1
        (up_commands ip_name addr mask ++ route_command ip_t mask ip_name ∷ [])))

unfoldable pub eth_initializer_xy : Host → Manager → Str → Option Outcome
eth_initializer_xy h m name = unless_initialized m name (λ i. with_address m i (λ addr mask ip_name.
    let m1 = (set_interface_status m name sending_and_receiving).1 in
    let up = up_commands ip_name addr mask in
    let sockfd = h.socket_answer in
    let made = up ++ socket_made sockfd ∷ [] in
    let given_up : Outcome = record {
      code = error;
      manager = m1;
      effects = up ++ (socket_made sockfd ∷ closed_fd sockfd ∷ []);
    } in
    if ltb_ℤ sockfd (pos 0)
    then some record { code = error; manager = m1; effects = made }
    else (get_sock_addr_value_addr m1 i >>= λ addr_. addr_ >>= λ address.
        if ltb_ℤ h.ioctl_answer (pos 0)
        then some given_up
        else if ltb_ℤ h.bind_answer (pos 0)
        then some given_up
        else marked (on_ip_name (some ip_name))
            (λ f. with_sock_addr (some address) (with_socket (pos 1) sockfd f)) m1 made)))

abbrev pub down_command : Str → Effect
down_command ip_name = ran (take 255 (c_str "ifconfig " ++ (ip_name ++ c_str " down")))

unfoldable pub eth_closer_xy : Manager → Str → Option Outcome
eth_closer_xy m name = unless_closed m name (λ i. get_ip_name_by_index m i >>= λ pointer.
    pointer >>= λ ip_name. get_temporary_sockfd_by_index m i >>= λ sockfd.
    marked (on_ip_name (some ip_name)) (with_socket (negsuc 0) (negsuc 0)) m
      (down_command ip_name ∷ closed_fd sockfd ∷ []))

unfoldable pub eth_closer_normal : Manager → Str → Option Outcome
eth_closer_normal m name = unless_closed m name (λ i. get_ip_name_by_index m i >>= λ pointer.
    pointer >>= λ ip_name.
    marked (on_ip_name (some ip_name)) (with_eth_flag (negsuc 0)) m (down_command ip_name ∷ []))
