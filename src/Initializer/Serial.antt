-- ===== src/Initializer/Serial.antt =====
-- src/initializer_closer_lib.c: `rs485_initializer_normal` and `rs485_closer_normal`.
pub mod Refines
pub mod Configuration
pub mod Runs
use monitor_node.Prelude.{
  ℤ, pos, negsuc, ltb_ℤ, error, Str, c_str, strcmp_eq, Bool, false, Option, some, List, [], ◌∷◌,
  if◌then◌else◌, ◌>>=◌,
}
use monitor_node.InfoManager.{Manager, InterfaceInfo}
use monitor_node.InfoManager.Interfaces.{get_temporary_fd}
use monitor_node.InfoManager.Interfaces.Parameters.{
  get_rs485_baud_rate_by_index, get_databits_by_index, get_stopbits_by_index,
  get_paritybits_by_index, get_rs485_dev_path_by_index,
}
use monitor_node.Rs485.Port.{SerialPortParams, open_port}
use monitor_node.Initializer.Common.{
  Host, port_opened, closed_fd, Outcome, same_text, marked, unless_initialized, unless_closed,
}

-- The entry is a serial line with the path.
abbrev pub on_path : Option Str → InterfaceInfo → Option Bool
on_path path f =
    if strcmp_eq f.interface_type (c_str "rs485")
    then same_text path f.rs485_info.rs485_dev_path
    else some false

abbrev pub with_fd : ℤ → ℤ → InterfaceInfo → InterfaceInfo
with_fd flag fd f = record f {
  initialized_flag = flag;
  rs485_info = record f.rs485_info { temporary_fd = fd };
}

unfoldable pub rs485_initializer_normal : Host → Manager → Str → Option Outcome
rs485_initializer_normal h m name = unless_initialized m name (λ i.
    get_rs485_baud_rate_by_index m i >>= λ baudrate. get_databits_by_index m i >>= λ databits.
    get_stopbits_by_index m i >>= λ stopbits. get_paritybits_by_index m i >>= λ paritybits.
    get_rs485_dev_path_by_index m i >>= λ path.
    let o = open_port h.tty path record {
      baudrate = baudrate;
      databits = databits;
      stopbits = stopbits;
      paritybits = paritybits;
    } in
    if ltb_ℤ o.code (pos 0)
    then some record { code = error; manager = m; effects = port_opened o ∷ [] }
    else marked (on_path path) (with_fd (pos 1) o.code) m (port_opened o ∷ []))

unfoldable pub rs485_closer_normal : Manager → Str → Option Outcome
rs485_closer_normal m name = unless_closed m name (λ i. get_temporary_fd m i >>= λ fd.
    get_rs485_dev_path_by_index m i >>= λ path.
    marked (on_path path) (with_fd (negsuc 0) (negsuc 0)) m (closed_fd fd ∷ []))
