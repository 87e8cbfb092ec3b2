-- ===== src/Tests/Buses.antt =====
-- Runs of the drivers for CAN.
use monitor_node.Prelude.{inr, ◌≡◌, refl, pos, ◌-ℤ◌, c_str, true, some, [], ◌∷◌, ◌++◌, replicate}
use monitor_node.Can.Fpu.{Turn, arrived, is_all_zeros, receive_packet_can_fpu}
use monitor_node.Can.Fpu.Laws.{receive_packet_can_fpu_first}
use monitor_node.Can.Gpu.{CanCalls, Arrays, cleared, receive_packet_can_gpu}
use monitor_node.Can.Gpu.Laws.{GotNew, receive_packet_can_gpu-GotNew}

-- A turn without data, and one with a frame.
abbrev quiet_turn : Turn
quiet_turn = record { time = pos 100; data_frame = replicate 86 0 }

abbrev data_turn : Turn
data_turn = record {
  time = pos 101;
  data_frame = replicate 16 1 ++ c_str "testcan!" ++ replicate 62 0;
}

receive_packet_can_fpu_first_example :
    receive_packet_can_fpu (pos 100) 8 (pos 10) (quiet_turn ∷ data_turn ∷ [])
    ≡ arrived (c_str "testcan!")
unfolding is_all_zeros ◌-ℤ◌
receive_packet_can_fpu_first_example =
    receive_packet_can_fpu_first (pos 100) (pos 10) 8 (quiet_turn ∷ []) data_turn []
      ((refl, refl), tt) (inr refl)

abbrev can_calls : CanCalls
can_calls = record {
  socket = pos 3;
  ioctl = pos 0;
  bind = pos 0;
  select = pos 1;
  read = some (c_str "testcan");
  written = true;
}

abbrev arrays : Arrays
arrays = record { can0_recv_array = cleared; can1_recv_array = cleared }

receive_packet_can_gpu-GotNew_example :
    GotNew can_calls 8 (receive_packet_can_gpu can_calls arrays (pos 1) 8)
receive_packet_can_gpu-GotNew_example =
    receive_packet_can_gpu-GotNew can_calls arrays (pos 1) 8 (refl, refl)
