-- ===== src/Initializer/Transfer.antt =====
-- src/initializer_closer_lib.c: `initializer_transfer` and `closer_transfer`, which call the function
-- with the configured name. Each is one step, since a lock is held.
use monitor_node.Prelude.{
  error, Str, c_str, strcmp_eq, name_in, Option, some, List, [], ◌∷◌, if◌then◌else◌,
}
use monitor_node.InfoManager.{Manager}
use monitor_node.Initializer.Common.{Host, Outcome}
use monitor_node.Initializer.Eth.{
  eth_initializer_normal, eth_initializer_xy, eth_closer_normal, eth_closer_xy,
}
use monitor_node.Initializer.Serial.{rs485_initializer_normal, rs485_closer_normal}
use monitor_node.Initializer.Can.{
  can_fpu_initializer_normal, can_gpu_initializer_normal, can_fpu_closer_normal,
  can_gpu_closer_normal,
}

abbrev pub initializer_name_array : List Str
initializer_name_array =
    c_str "eth_initializer_normal"
    ∷ c_str "rs485_initializer_normal"
    ∷ c_str "can_gpu_initializer_normal"
    ∷ c_str "can_fpu_initializer_normal"
    ∷ c_str "eth_initializer_xy"
    ∷ []

abbrev pub closer_name_array : List Str
closer_name_array =
    c_str "eth_closer_normal"
    ∷ c_str "rs485_closer_normal"
    ∷ c_str "can_gpu_closer_normal"
    ∷ c_str "can_fpu_closer_normal"
    ∷ c_str "eth_closer_xy"
    ∷ []

abbrev pub unknown_function : Manager → Option Outcome
unknown_function m = some record { code = error; manager = m; effects = [] }

unfoldable pub initializer_transfer : Host → Manager → Str → Str → Option Outcome
initializer_transfer h m initializer_name name =
    if name_in initializer_name initializer_name_array
    then (if strcmp_eq initializer_name (c_str "eth_initializer_normal")
        then eth_initializer_normal h m name
        else if strcmp_eq initializer_name (c_str "eth_initializer_xy")
        then eth_initializer_xy h m name
        else if strcmp_eq initializer_name (c_str "rs485_initializer_normal")
        then rs485_initializer_normal h m name
        else if strcmp_eq initializer_name (c_str "can_fpu_initializer_normal")
        then can_fpu_initializer_normal h m name
        else if strcmp_eq initializer_name (c_str "can_gpu_initializer_normal")
        then can_gpu_initializer_normal m name
        else unknown_function m)
    else unknown_function m

unfoldable pub closer_transfer : Manager → Str → Str → Option Outcome
closer_transfer m closer_name name =
    if name_in closer_name closer_name_array
    then (if strcmp_eq closer_name (c_str "eth_closer_normal")
        then eth_closer_normal m name
        else if strcmp_eq closer_name (c_str "eth_closer_xy")
        then eth_closer_xy m name
        else if strcmp_eq closer_name (c_str "rs485_closer_normal")
        then rs485_closer_normal m name
        else if strcmp_eq closer_name (c_str "can_fpu_closer_normal")
        then can_fpu_closer_normal m name
        else if strcmp_eq closer_name (c_str "can_gpu_closer_normal")
        then can_gpu_closer_normal m name
        else unknown_function m)
    else unknown_function m
