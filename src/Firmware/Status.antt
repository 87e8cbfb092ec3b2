-- ===== src/Firmware/Status.antt =====
-- src/firmware.c: `set_status`. The answers of the two shell commands behind `is_interface_up` are
-- the parameter `is_up`, and the commands that bring an interface up or down are part of the result.
-- `none` is the fault of `strcmp` with the NULL status of an unknown interface.
pub mod Kinds
pub mod Laws
use monitor_node.Prelude.{
  ℤ, error, success, pos, ltb_ℤ, Str, c_str, strcmp_eq, take, Bool, not, ◌&&◌, Option, none, some,
  List, [], ◌∷◌, ◌++◌, if◌then◌else◌, ◌>>=◌ as ◌then_run◌,
}
use monitor_node.InfoManager.{Manager}
use monitor_node.InfoManager.Interfaces.{
  get_interface_index, get_interface_status, get_base_send_func_by_index,
  get_base_receive_func_by_index,
}
use monitor_node.InfoManager.Status.{set_interface_status}
use monitor_node.StatusChooser.{closed}

abbrev pub sending_and_receiving : Str
sending_and_receiving = c_str "sending_and_receiving"

pub record Outcome : Type 0 where
  pub code : ℤ
  pub manager : Manager
  pub commands : List Str

-- A block of the function goes on to the next one, or returns.
pub data Flow : Type 0 where
  running : Manager → List Str → Flow
  returned : Outcome → Flow

infixl 5 ◌>>=◌
abbrev pub ◌>>=◌ : Flow → (Manager → List Str → Flow) → Flow
running m commands >>= k = k m commands
returned o >>= k = returned o

abbrev pub finish : Flow → Outcome
finish (running m commands) = record { code = success; manager = m; commands = commands }
finish (returned o) = o

-- `snprintf(cmd_up, 256, "ifconfig %s up", source_interface)`
abbrev pub ifconfig : Str → Str → Str
ifconfig name action = take 255 (c_str "ifconfig " ++ (name ++ action))

module _ (is_up : Str → Bool) (name status send_func receive_func : Str) where
  abbrev both : Str → Str → Bool
  both s r = strcmp_eq send_func s && strcmp_eq receive_func r

  -- The blocks of RS-485 and of the two kinds of CAN.
  unfoldable pub half_duplex_block : Str → Str → Manager → List Str → Flow
  half_duplex_block s r m commands =
      let (code, m') = set_interface_status m name status in
      if both s r
      then (if strcmp_eq status sending_and_receiving
          then returned (record { code = error; manager = m; commands = commands })
          else if ltb_ℤ code (pos 0)
          then returned (record { code = error; manager = m'; commands = commands })
          else running m' commands)
      else running m commands

  unfoldable pub link_commands : List Str
  link_commands =
      if strcmp_eq status sending_and_receiving && not (is_up name)
      then ifconfig name (c_str " up") ∷ []
      else if strcmp_eq status closed && is_up name
      then ifconfig name (c_str " down") ∷ []
      else []

  -- The blocks of the three kinds of Ethernet.
  unfoldable pub eth_block : Str → Str → Manager → List Str → Flow
  unfolding link_commands
  eth_block s r m commands =
      let (code, m') = set_interface_status m name status in
      if both s r
      then (if ltb_ℤ code (pos 0)
          then returned (record { code = error; manager = m'; commands = commands })
          else running m' (commands ++ link_commands))
      else running m commands

  unfoldable pub blocks : Manager → Flow
  unfolding half_duplex_block eth_block
  blocks m =
      half_duplex_block (c_str "send_packet_rs485") (c_str "receive_packet_rs485") m []
      >>= eth_block (c_str "send_packet_by_mac_addr") (c_str "receive_packet_by_mac_addr")
      >>= eth_block (c_str "send_packet_by_ip_addr") (c_str "receive_packet_by_ip_addr")
      >>= eth_block (c_str "send_packet_xy") (c_str "receive_packet_xy")
      >>= half_duplex_block (c_str "send_packet_can_fpu") (c_str "receive_packet_can_fpu")
      >>= half_duplex_block (c_str "send_packet_can_gpu") (c_str "receive_packet_can_gpu")

abbrev unchanged : ℤ → Manager → Outcome
unchanged code m = record { code = code; manager = m; commands = [] }

module _ (is_up : Str → Bool) where
  -- Both arguments are there and the interface's status is another one.
  unfoldable pub change_status : Manager → Str → Str → Option Outcome
  unfolding blocks
  change_status m name status =
      let i = get_interface_index m name in
      get_base_send_func_by_index m i then_run λ send_func.
      get_base_receive_func_by_index m i then_run λ receive_func.
      some (finish (blocks is_up name status send_func receive_func m))

  unfoldable pub set_status : Manager → Option Str → Option Str → Option Outcome
  unfolding change_status
  set_status m none status = some (unchanged error m)
  set_status m (some name) none = some (unchanged error m)
  set_status m (some name) (some status) = get_interface_status m name then_run λ current.
      if strcmp_eq current status then some (unchanged success m) else change_status m name status
