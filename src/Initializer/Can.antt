-- ===== src/Initializer/Can.antt =====
-- src/initializer_closer_lib.c: the initializers and closers of the two kinds of CAN interfaces.
use monitor_node.Prelude.{
  ℤ, pos, negsuc, ltb_ℤ, eqb_ℤ, error, Str, c_str, strcmp_eq, Bool, Option, some, [], ◌∷◌, ◌&&◌,
  if◌then◌else◌, ◌>>=◌,
}
use monitor_node.InfoManager.{Manager, InterfaceInfo}
use monitor_node.InfoManager.Status.{set_interface_status}
use monitor_node.InfoManager.Interfaces.{get_channel_id_by_index}
use monitor_node.InfoManager.Interfaces.Parameters.{get_can_baud_rate_by_index}
use monitor_node.StatusChooser.{receiving, closed}
use monitor_node.Initializer.Common.{
  Host, channel_set_up, Outcome, nothing_done, marked, unless_initialized, unless_closed,
}

-- The entry is a CAN interface with the channel.
abbrev pub on_channel : ℤ → InterfaceInfo → Option Bool
on_channel channel f =
    some (strcmp_eq f.interface_type (c_str "can") && eqb_ℤ channel f.can_info.can_id)

abbrev pub with_flag : ℤ → InterfaceInfo → InterfaceInfo
with_flag flag f = record f { initialized_flag = flag }

unfoldable pub can_fpu_initializer_normal : Host → Manager → Str → Option Outcome
can_fpu_initializer_normal h m name = unless_initialized m name (λ i.
    get_channel_id_by_index m i >>= λ channel. get_can_baud_rate_by_index m i >>= λ baud_rate.
    let effects = channel_set_up channel baud_rate ∷ [] in
    if ltb_ℤ (h.com_can_std_cfg_init channel baud_rate) (pos 0)
    then some
        record { code = error; manager = (set_interface_status m name closed).1; effects = effects }
    else marked (on_channel channel) (with_flag (pos 1)) (set_interface_status m name receiving).1
        effects)

unfoldable pub can_gpu_initializer_normal : Manager → Str → Option Outcome
can_gpu_initializer_normal m name = some (nothing_done m)

unfoldable pub can_fpu_closer_normal : Manager → Str → Option Outcome
can_fpu_closer_normal m name = unless_closed m name (λ i. get_channel_id_by_index m i >>= λ channel.
    marked (on_channel channel) (with_flag (negsuc 0)) m [])

unfoldable pub can_gpu_closer_normal : Manager → Str → Option Outcome
can_gpu_closer_normal m name = some (nothing_done m)
