-- ===== src/InfoManager/Types.antt =====
-- The structures of info_manager.h. A `char *` that may be NULL is an `Option`; the two counters
-- `interface_cnt` and `communication_info_cnt` are the lengths of the lists.
use monitor_node.Prelude.{ℕ, ℤ, Str, Option, List}

pub record EthInfo : Type 0 where
  pub ip_name : Option Str
  pub ip_addr : Option Str
  pub net_mask : Option Str
  pub mac_addr : Option Str
  pub port_id : ℤ
  pub temporary_sockfd : ℤ
  pub sock_addr : Option ℕ  -- an address

pub record CanInfo : Type 0 where
  pub can_id : ℤ
  pub baud_rate : ℤ

pub record Rs485Info : Type 0 where
  pub rs485_dev_path : Option Str
  pub rs485_gpio_number : ℤ
  pub databits : ℤ
  pub stopbits : ℤ
  pub paritybits : ℕ
  pub baud_rate : ℤ
  pub temporary_fd : ℤ

pub record InterfaceInfo : Type 0 where
  pub mode : Str
  pub located_node : Str
  pub interface_name : Str
  pub interface_type : Str
  pub linked_node : Str
  pub linked_interface_name : Str
  pub linked_interface_type : Str
  pub center_interface_name : Str
  pub status_chooser : Str
  pub base_send_func : Str
  pub base_receive_func : Str
  pub msg_generator_of_sender : Str
  pub initializer_name : Str
  pub closer_name : Str
  pub eth_info : EthInfo
  pub linked_eth_info : EthInfo
  pub can_info : CanInfo
  pub linked_can_info : CanInfo
  pub rs485_info : Rs485Info
  pub linked_rs485_info : Rs485Info
  pub status : Str
  pub duplex : Str
  pub initialized_flag : ℤ
  pub last_work_time : ℤ

pub record CommunicationInfo : Type 0 where
  pub linked_node : Str
  pub interface_name : Str
  pub updated_time : ℤ
  pub tx : ℕ  -- unsigned long
  pub rx : ℕ  -- unsigned long
  pub current_round : ℤ
  pub if_newest_flag : ℤ

-- The globals of info_manager.h and info_manager.c.
pub record Manager : Type 0 where
  pub interface_info_array : List InterfaceInfo
  pub communication_info_array : List CommunicationInfo
  pub test_begin_time : ℤ
  pub memoried : ℕ
