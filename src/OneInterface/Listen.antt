-- ===== src/OneInterface/Listen.antt =====
-- src/one_interface_operator.c: `listen_upon_one_interface_in_one_time`.
use monitor_node.Prelude.{ℤ, pos, Str, Bool, Option, some, List, ◌>>=◌}
use monitor_node.InfoManager.Interfaces.{get_interface_index, set_last_work_time}
use monitor_node.StatusChooser.{listen_mode}
use monitor_node.Firmware.Receive.{Line, Received, receive_message}
use monitor_node.OneInterface.State.{Node, max_waiting_time_in_one_round, current_round_at}
use monitor_node.OneInterface.Choose.{update_status_in_current_round}

-- The globals after it, the commands for the shell, and what `receive_message` did.
pub record Heard : Type 0 where
  pub node : Node
  pub commands : List Str
  pub received : Received

unfoldable pub listen_upon_one_interface_in_one_time :
    (Str → Bool) → Line → Node → ℤ → Str → Str → Option Heard
listen_upon_one_interface_in_one_time is_up line s now linked_node listened_interface =
    let current_round = current_round_at s.manager now in
    update_status_in_current_round is_up s.manager listened_interface listen_mode current_round
    >>= λ o.
        set_last_work_time o.manager (get_interface_index o.manager listened_interface) now
        >>= λ m1.
            receive_message line m1 (some linked_node) (some listened_interface)
              (pos max_waiting_time_in_one_round)
            >>= λ r.
                some
                  record { node = record s { manager = m1 }; commands = o.commands; received = r }
