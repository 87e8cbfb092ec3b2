-- ===== src/InfoManager/Interfaces/Parameters.antt =====
-- src/base/info_manager.c: the accessors for the parameters of an interface that the drivers and the
-- initializers read and write, and the accessors by name.
use monitor_node.Prelude.{
  ℕ, ℤ, Str, c_str, strcmp_eq, Option, none, some, List, [], ◌∷◌, if◌then◌else◌, ◌>>=◌,
}
use monitor_node.InfoManager.Types.{Manager, InterfaceInfo}
use monitor_node.InfoManager.Interfaces.{interface_at, set_interface_at}

abbrev pub get_located_node : Manager → ℤ → Option Str
get_located_node m i = interface_at m i >>= λ f. some f.located_node

abbrev pub get_initializer_name_by_index : Manager → ℤ → Option Str
get_initializer_name_by_index m i = interface_at m i >>= λ f. some f.initializer_name

abbrev pub get_closer_name_by_index : Manager → ℤ → Option Str
get_closer_name_by_index m i = interface_at m i >>= λ f. some f.closer_name

abbrev pub set_temporary_sockfd_by_index : Manager → ℤ → ℤ → Option Manager
set_temporary_sockfd_by_index m i sockfd =
    set_interface_at m i
      (λ f. record f { eth_info = record f.eth_info { temporary_sockfd = sockfd } })

abbrev pub get_sock_addr_value_addr : Manager → ℤ → Option (Option ℕ)
get_sock_addr_value_addr m i = interface_at m i >>= λ f. some f.eth_info.sock_addr

abbrev pub set_sock_addr_value_addr : Manager → ℤ → Option ℕ → Option Manager
set_sock_addr_value_addr m i addr =
    set_interface_at m i (λ f. record f { eth_info = record f.eth_info { sock_addr = addr } })

abbrev pub get_rs485_baud_rate_by_index : Manager → ℤ → Option ℤ
get_rs485_baud_rate_by_index m i = interface_at m i >>= λ f. some f.rs485_info.baud_rate

abbrev pub get_can_baud_rate_by_index : Manager → ℤ → Option ℤ
get_can_baud_rate_by_index m i = interface_at m i >>= λ f. some f.can_info.baud_rate

abbrev pub get_databits_by_index : Manager → ℤ → Option ℤ
get_databits_by_index m i = interface_at m i >>= λ f. some f.rs485_info.databits

abbrev pub get_paritybits_by_index : Manager → ℤ → Option ℕ
get_paritybits_by_index m i = interface_at m i >>= λ f. some f.rs485_info.paritybits

abbrev pub get_stopbits_by_index : Manager → ℤ → Option ℤ
get_stopbits_by_index m i = interface_at m i >>= λ f. some f.rs485_info.stopbits

abbrev pub set_temporary_fd : Manager → ℤ → ℤ → Option Manager
set_temporary_fd m i fd =
    set_interface_at m i (λ f. record f { rs485_info = record f.rs485_info { temporary_fd = fd } })

abbrev pub get_last_work_time : Manager → ℤ → Option ℤ
get_last_work_time m i = interface_at m i >>= λ f. some f.last_work_time

-- The pointer itself, which may be NULL, is the result of these two.
abbrev pub get_rs485_dev_path_by_index : Manager → ℤ → Option (Option Str)
get_rs485_dev_path_by_index m i = interface_at m i >>= λ f. some f.rs485_info.rs485_dev_path

abbrev pub get_net_mask_by_index : Manager → ℤ → Option (Option Str)
get_net_mask_by_index m i = interface_at m i >>= λ f. some f.eth_info.net_mask

abbrev pub get_rs485_gpio_number_by_index : Manager → ℤ → Option ℤ
get_rs485_gpio_number_by_index m i = interface_at m i >>= λ f. some f.rs485_info.rs485_gpio_number

abbrev pub get_interface_type_by_index : Manager → ℤ → Option Str
get_interface_type_by_index m i = interface_at m i >>= λ f. some f.interface_type

abbrev pub get_interface_duplex_by_index : Manager → ℤ → Option Str
get_interface_duplex_by_index m i = interface_at m i >>= λ f. some f.duplex

-- The loop of the accessors by name: the field of the first entry with the name.
unfoldable pub field_of : (InterfaceInfo → Str) → Str → List InterfaceInfo → Option Str
field_of g name [] = none
field_of g name (f ∷ fs) =
    let rest = field_of g name fs in if strcmp_eq f.interface_name name then some (g f) else rest

unfoldable pub get_interface_mode : Manager → Str → Option Str
unfolding field_of
get_interface_mode m name = field_of (λ f. f.mode) name m.interface_info_array

unfoldable pub get_interface_type : Manager → Str → Option Str
unfolding field_of
get_interface_type m name = field_of (λ f. f.interface_type) name m.interface_info_array

-- The loop of the two accessors of hardware addresses passes over entries of another type.
unfoldable pub eth_field_of : (InterfaceInfo → Option Str) → Str → List InterfaceInfo → Option Str
eth_field_of g name [] = none
eth_field_of g name (f ∷ fs) =
    let rest = eth_field_of g name fs in
    if strcmp_eq f.interface_name name
    then (if strcmp_eq f.interface_type (c_str "eth") then g f else rest)
    else rest

unfoldable pub get_mac_addr : Manager → Str → Option Str
unfolding eth_field_of
get_mac_addr m name = eth_field_of (λ f. f.eth_info.mac_addr) name m.interface_info_array

unfoldable pub get_linked_mac_addr : Manager → Str → Option Str
unfolding eth_field_of
get_linked_mac_addr m name =
    eth_field_of (λ f. f.linked_eth_info.mac_addr) name m.interface_info_array
