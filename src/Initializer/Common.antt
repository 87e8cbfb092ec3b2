-- ===== src/Initializer/Common.antt =====
-- src/initializer_closer_lib.c: what the initializers and closers share. The locks of the drivers
-- and the printing are left out. `none` is a fault: an unknown interface, or `strcmp` or `snprintf`
-- with a pointer that is NULL.
use monitor_node.Prelude.{
  ℕ, ℤ, pos, ltb_ℤ, success, Str, strcmp_eq, Bool, Option, none, some, List, [], ◌∷◌, if◌then◌else◌,
  ◌>>=◌,
}
use monitor_node.InfoManager.{Manager, InterfaceInfo}
use monitor_node.InfoManager.Interfaces.{get_interface_index, get_initialized_flag_by_index}
use monitor_node.Rs485.Port.{Tty, Opened}

-- What the calls outside of the program answer.
pub record Host : Type 0 where
  pub tty : Tty
  pub com_can_std_cfg_init : ℤ → ℤ → ℤ
  pub socket_answer : ℤ
  pub ioctl_answer : ℤ
  pub bind_answer : ℤ
  pub unset_ip_t : List ℕ  -- the local array `ip_t` at first

-- What is done to the world: a command for the shell, a serial line that `open_port` was called for,
-- the setup of a CAN channel, a socket, and a descriptor that is closed.
pub data Effect : Type 0 where
  ran : Str → Effect
  port_opened : Opened → Effect
  channel_set_up : ℤ → ℤ → Effect
  socket_made : ℤ → Effect
  closed_fd : ℤ → Effect

pub record Outcome : Type 0 where
  pub code : ℤ
  pub manager : Manager
  pub effects : List Effect

-- The return before anything is done.
abbrev pub nothing_done : Manager → Outcome
nothing_done m = record { code = success; manager = m; effects = [] }

-- `strcmp(a, b) == 0`
abbrev pub same_text : Option Str → Option Str → Option Bool
same_text none b = none
same_text (some a) none = none
same_text (some a) (some b) = some (strcmp_eq a b)

-- The loop over all entries: those that are on the device are changed.
unfoldable pub mark_all :
    (InterfaceInfo → Option Bool)
    → (InterfaceInfo → InterfaceInfo)
    → List InterfaceInfo
    → Option (List InterfaceInfo)
mark_all on_device change [] = some []
mark_all on_device change (f ∷ fs) =
    let rest = mark_all on_device change fs in
    on_device f >>= λ b. rest >>= λ gs. some ((if b then change f else f) ∷ gs)

abbrev pub marked :
    (InterfaceInfo → Option Bool)
    → (InterfaceInfo → InterfaceInfo)
    → Manager
    → List Effect
    → Option Outcome
marked on_device change m effects = mark_all on_device change m.interface_info_array >>= λ fs.
    some
      record { code = success; manager = record m { interface_info_array = fs }; effects = effects }

-- The start of an initializer and that of a closer: the index, unless the flag tells that there is
-- nothing to do.
abbrev pub unless_initialized : Manager → Str → (ℤ → Option Outcome) → Option Outcome
unless_initialized m name k =
    let i = get_interface_index m name in
    get_initialized_flag_by_index m i >>= λ flag.
    if ltb_ℤ (pos 0) flag then some (nothing_done m) else k i

abbrev pub unless_closed : Manager → Str → (ℤ → Option Outcome) → Option Outcome
unless_closed m name k =
    let i = get_interface_index m name in
    get_initialized_flag_by_index m i >>= λ flag.
    if ltb_ℤ flag (pos 0) then some (nothing_done m) else k i
