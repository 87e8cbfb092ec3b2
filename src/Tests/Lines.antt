-- ===== src/Tests/Lines.antt =====
-- Runs of the serial line of src/base/rs485_recv_send.c and of `receive_message`.
use monitor_node.Prelude.{
  ℕ, zero, suc, strcmp_eq, ◌≡◌, refl, pos, success, c_str, true, false, ◌++◌, none, some, List, [],
  ◌∷◌, All, map, replicate, take, Yields, arith,
}
use monitor_node.InfoManager.{Manager}
use monitor_node.InfoManager.Interfaces.{get_interface_index}
use monitor_node.Rs485.Send.{Transfer, waiting, ended, write_loop}
use monitor_node.Rs485.Send.Laws.{
  TakesSome, PutsPrefix, send_packet_rs485-ends, send_packet_rs485-PutsPrefix,
}
use monitor_node.Rs485.Receive.{Answer, bytes, timed_out, Reception, received, read_loop}
use monitor_node.Rs485.Receive.Laws.{
  IsFilled, receive_packet_rs485_pieces, receive_packet_rs485-IsFilled,
}
use monitor_node.Rs485.Port.{Termios, SerialPortParams, Tty, cs8, open_port}
use monitor_node.Rs485.Port.Laws.{open_rule, open_port_lem}
use monitor_node.Firmware.Fill.Laws.{IsText}
use monitor_node.Firmware.Send.{Wire, send_packet_rs485, send_message}
use monitor_node.Firmware.Send.Laws.{Ready, frame}
use monitor_node.Firmware.Receive.{Line, receive_message}
use monitor_node.Firmware.Receive.Laws.{HandsOver, data_of, receive_message-HandsOver}
use monitor_node.Firmware.Serial.{Listens, Carries, rs485_round_trip}
use monitor_node.Tests.Fixtures.{node, rs_if, interface_of, eth_if}

-- Two calls of `write` that take two bytes and one.
send_packet_rs485-ends_example :
    monitor_node.Rs485.Send.send_packet_rs485
      (some 2 ∷ some 1 ∷ some 1 ∷ [])
      (some (7 ∷ 8 ∷ 9 ∷ []))
    ≡ ended (pos 3) (7 ∷ 8 ∷ 9 ∷ [])
send_packet_rs485-ends_example =
    send_packet_rs485-ends (some 2 ∷ some 1 ∷ some 1 ∷ []) (7 ∷ 8 ∷ 9 ∷ []) (omega arith)
      (omega arith, (omega arith, (omega arith, tt))) (omega arith)

send_packet_rs485-PutsPrefix_example :
    PutsPrefix
      (7 ∷ 8 ∷ [])
      (pos 2)
      (monitor_node.Rs485.Send.send_packet_rs485 (some 1 ∷ none ∷ []) (some (7 ∷ 8 ∷ [])))
    × (monitor_node.Rs485.Send.send_packet_rs485 (replicate 3 (some 0)) (some (7 ∷ 8 ∷ []))
        ≡ waiting)
send_packet_rs485-PutsPrefix_example =
    send_packet_rs485-PutsPrefix (some 1 ∷ none ∷ []) (7 ∷ 8 ∷ []) 3 (omega arith)

-- Nothing at first, and then three bytes in two pieces.
receive_packet_rs485_pieces_example :
    monitor_node.Rs485.Receive.receive_packet_rs485
      (replicate 2 (bytes []) ++ map bytes ((1 ∷ 2 ∷ []) ∷ (3 ∷ []) ∷ []))
      (some 3)
    ≡ received (pos 3) (1 ∷ 2 ∷ 3 ∷ [])
receive_packet_rs485_pieces_example =
    receive_packet_rs485_pieces 2 3 ((1 ∷ 2 ∷ []) ∷ (3 ∷ []) ∷ []) (omega arith, (omega arith, tt))
      refl (omega arith)

receive_packet_rs485-IsFilled_example :
    IsFilled
      (5 ∷ [])
      4
      (monitor_node.Rs485.Receive.receive_packet_rs485 (bytes (5 ∷ []) ∷ timed_out ∷ []) (some 4))
receive_packet_rs485-IsFilled_example =
    receive_packet_rs485-IsFilled (bytes (5 ∷ []) ∷ timed_out ∷ []) 4 (omega arith)

abbrev found_settings : Termios
found_settings = record {
  ispeed = pos 9600;
  ospeed = pos 9600;
  char_size = cs8;
  parenb = true;
  parodd = false;
  cstopb = true;
  clocal = false;
  cread = false;
  inpck = true;
  brkint = true;
  icrnl = true;
  igncr = false;
  istrip = false;
  ixon = true;
  opost = true;
  icanon = true;
  isig = true;
  echo = true;
  echoe = true;
  vtime = 0;
  vmin = 1;
}

abbrev pub tty : Tty
tty = record { open_answer = λ p. pos 3; found = some found_settings; sets = true }

abbrev params : SerialPortParams
params = record { baudrate = pos 115200; databits = pos 8; stopbits = pos 1; paritybits = 110 }

open_port_lem_example :
    open_port tty (some (c_str "tty1")) params ≡ open_rule tty (some (c_str "tty1")) params
open_port_lem_example = open_port_lem tty (some (c_str "tty1")) params

-- The other end of the line.
abbrev far_if : monitor_node.InfoManager.InterfaceInfo
far_if =
    interface_of (c_str "listen") (c_str "far1") (c_str "rs0") (c_str "send_packet_rs485")
      (c_str "receive_packet_rs485") (c_str "generate_rs485_test_msg") (c_str "receiving")

abbrev far_node : Manager
far_node = record node { interface_info_array = eth_if ∷ far_if ∷ [] }

-- The frame arrives in a piece of two bytes and one of the rest.
abbrev hi_frame : List ℕ
hi_frame = frame 63 (c_str "hi")

abbrev line : Line
line = record { answer = λ c. (pos 64, hi_frame); creates = pos 0 }

abbrev full_wire : Wire
full_wire = record {
  transmit = λ c. pos 64;
  rs485_frame = replicate 63 7 ++ 7 ∷ [];
  can_frame = replicate 8 7;
}

receive_message-HandsOver_example :
    Yields
      (HandsOver line far_node (c_str "node1") (c_str "far1") (pos 10))
      (receive_message line far_node (some (c_str "node1")) (some (c_str "far1")) (pos 10))
receive_message-HandsOver_example =
    receive_message-HandsOver line far_node (c_str "node1") (c_str "far1") (pos 10)

hi_IsText : IsText (c_str "hi")
hi_IsText = (omega arith, (omega arith, tt))

near-Ready :
    Ready full_wire node
      (c_str "rs0")
      (c_str "hi")
      rs_if
      (replicate 63 7)
      7
      (c_str "send_packet_rs485")
      full_wire.rs485_frame
      63
unfolding get_interface_index strcmp_eq
near-Ready = record {
  at = refl;
  open_ = (refl, refl);
  func_is = refl;
  held = refl;
  size = refl;
  text = hi_IsText;
}

far-Listens : Listens far_node (c_str "far1") far_if
unfolding get_interface_index strcmp_eq
far-Listens = record { at = refl; not_sending = refl; not_closed = refl; func_is = refl }

takes_some : (n : ℕ) → All TakesSome (replicate n (some 1))
takes_some zero = tt
takes_some (suc n) = (omega arith, takes_some n)

abbrev two_pieces : List (List ℕ)
two_pieces = take 2 hi_frame ∷ replicate 62 0 ∷ []

hi-Carries : Carries full_wire line (pos 5) (pos 5) (pos 10) hi_frame
hi-Carries = record {
  writes = replicate 64 (some 1);
  pieces = two_pieces;
  takes = takes_some 64;
  enough = omega arith;
  in_pieces = (omega arith, (omega arith, tt));
  sends =
      send_packet_rs485-ends (replicate 64 (some 1)) hi_frame (omega arith) (takes_some 64)
        (omega arith);
  receives =
      receive_packet_rs485_pieces 0 64 two_pieces (omega arith, (omega arith, tt)) refl
        (omega arith);
}

rs485_round_trip_example :
    (send_message full_wire node (some (c_str "rs0")) (some (c_str "hi"))
      ≡ some record { code = success; call = some (send_packet_rs485 (pos 5) hi_frame) })
    × (receive_message line far_node (some (c_str "node1")) (some (c_str "far1")) (pos 10)
        ≡ some record {
          code = some success;
          handed = some (data_of (c_str "node1") (c_str "far1") (c_str "hi"));
        })
rs485_round_trip_example =
    rs485_round_trip full_wire node (c_str "rs0") (c_str "hi") rs_if (replicate 63 7) 7 near-Ready
      refl line far_node (c_str "node1") (c_str "far1") far_if (pos 10) far-Listens refl hi-Carries
