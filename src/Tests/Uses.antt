-- ===== src/Tests/Uses.antt =====
-- A run of the initializers and closers of two interfaces on one serial line.
use monitor_node.Prelude.{
  ◌≡◌, refl, pos, negsuc, c_str, strcmp_eq, true, false, some, List, [], ◌∷◌, replicate,
}
use monitor_node.InfoManager.{Manager}
use monitor_node.InfoManager.Interfaces.{get_interface_index}
use monitor_node.Initializer.Common.{Host}
use monitor_node.Initializer.Serial.Refines.{Refines, params_of}
use monitor_node.Initializer.Serial.Runs.{Use, Serves, call_all, table_after, call_all-table_after}
use monitor_node.Tests.Devices.{serial_if, serial_node, no_devices}
use monitor_node.Tests.Lines.{tty}

abbrev host : Host
host = record {
  tty = tty;
  com_can_std_cfg_init = λ c b. pos 0;
  socket_answer = pos 6;
  ioctl_answer = pos 0;
  bind_answer = pos 0;
  unset_ip_t = replicate 16 7;
}

-- The first interface opens the line, the second one finds it open and closes it.
abbrev opening : Use
opening = record {
  opens = true;
  host = host;
  name = c_str "rs0";
  path = c_str "tty1";
  params = params_of (serial_if (c_str "rs0") (negsuc 0));
}

abbrev uses : List Use
uses =
    opening
    ∷ record opening { name = c_str "rs1" }
    ∷ record opening { name = c_str "rs1"; opens = false }
    ∷ []

first-Serves : Serves (serial_node (negsuc 0)) opening
unfolding get_interface_index strcmp_eq
first-Serves = record {
  entry = serial_if (c_str "rs0") (negsuc 0);
  at = refl;
  is_serial = refl;
  path_is = refl;
  params_are = refl;
}

second-Serves : Serves (serial_node (negsuc 0)) record opening { name = c_str "rs1" }
unfolding get_interface_index strcmp_eq
second-Serves = record {
  entry = serial_if (c_str "rs1") (negsuc 0);
  at = refl;
  is_serial = refl;
  path_is = refl;
  params_are = refl;
}

third-Serves : Serves (serial_node (negsuc 0)) record opening { name = c_str "rs1"; opens = false }
unfolding get_interface_index strcmp_eq
third-Serves = record {
  entry = serial_if (c_str "rs1") (negsuc 0);
  at = refl;
  is_serial = refl;
  path_is = refl;
  params_are = refl;
}

closed-Refines : Refines (serial_node (negsuc 0)) no_devices
unfolding strcmp_eq
closed-Refines =
    ((λ e. cc), ((λ e. (c_str "tty1", refl, refl)), ((λ e. (c_str "tty1", refl, refl)), tt)))

call_all-table_after_example :
    (m1 : Manager) × (call_all uses (serial_node (negsuc 0))
      ≡ some (m1, (table_after uses no_devices).1))
    × Refines m1 (table_after uses no_devices).0
call_all-table_after_example =
    call_all-table_after uses (serial_node (negsuc 0)) no_devices
      (first-Serves, (second-Serves, (third-Serves, tt))) closed-Refines
