-- ===== src/Firmware/Serial.antt =====
-- src/firmware.c and src/base/rs485_recv_send.c together: a message that `send_message` puts on a
-- serial line, through the drivers of both ends, to `receive_message`.
use monitor_node.Prelude.{
  ℕ, ◌≤◌, ◌≡◌, refl, sym, ap, ◌∙◌, ℤ, pos, error, success, Str, c_str, strcmp_eq, false, Option,
  some, List, [], map, All, length, take, arith,
}
use monitor_node.InfoManager.{Manager, InterfaceInfo}
use monitor_node.InfoManager.Interfaces.{get_interface_index, interface_at}
use monitor_node.StatusChooser.{sending, closed}
use monitor_node.Rs485.Send.{Transfer, waiting, ended}
use monitor_node.Rs485.Send.Laws.{TakesSome, send_packet_rs485-ends}
use monitor_node.Rs485.Receive.{Answer, bytes, Reception, pending, received}
use monitor_node.Rs485.Receive.Laws.{joined, IsPiece, receive_packet_rs485_pieces}
use monitor_node.Firmware.Send.{Wire, send_packet_rs485, send_message}
use monitor_node.Firmware.Send.Laws.{Ready, frame, overflows, send_message_rs485}
use monitor_node.Firmware.Receive.{
  receive_packet_rs485, Line, receive_by, receive_message, call_by_func,
}
use monitor_node.Firmware.Receive.Laws.{data_of}

-- The interface may receive, and does it on a serial line.
pub record Listens (m : Manager) (name : Str) (f : InterfaceInfo) : Type 0 where
  pub at : interface_at m (get_interface_index m name) ≡ some f
  pub not_sending : strcmp_eq f.status sending ≡ false
  pub not_closed : strcmp_eq f.status closed ≡ false
  pub func_is : f.base_receive_func ≡ c_str "receive_packet_rs485"

-- A frame of 64 bytes goes over the line: the base functions are the two drivers, and the bytes that
-- the one puts out come to the other, in pieces.
pub record Carries (w : Wire) (l : Line) (out fd : ℤ) (wait : ℤ) (bytes_ : List ℕ) : Type 0 where
  pub writes : List (Option ℕ)
  pub pieces : List (List ℕ)
  pub takes : All TakesSome writes
  pub enough : 64 ≤ length writes
  pub in_pieces : All IsPiece pieces
  pub sends :
      monitor_node.Rs485.Send.send_packet_rs485 writes (some bytes_)
      ≡ ended (w.transmit (send_packet_rs485 out bytes_)) (joined pieces)
  pub receives :
      monitor_node.Rs485.Receive.receive_packet_rs485 (map bytes pieces) (some 64)
      ≡ received
          (l.answer (receive_packet_rs485 fd wait)).0
          (l.answer (receive_packet_rs485 fd wait)).1

ended_code : Transfer → ℤ
ended_code waiting = error
ended_code (ended c b) = c

ended_bytes : Transfer → List ℕ
ended_bytes waiting = []
ended_bytes (ended c b) = b

received_pair : Reception → ℤ × List ℕ
received_pair pending = (error, [])
received_pair (received c b) = (c, b)

-- The sender's driver put out the frame with the code 64, and the receiver's filled its buffer with it.
carried :
    (w : Wire) (l : Line) (out fd wait : ℤ) (b : List ℕ)
    → length b ≡ 64
    → Carries w l out fd wait b
    → (w.transmit (send_packet_rs485 out b) ≡ pos 64)
      × (l.answer (receive_packet_rs485 fd wait) ≡ (pos 64, b))
unfolding ended_code ended_bytes received_pair
carried w l out fd wait b e c =
    let sent_ : ended (w.transmit (send_packet_rs485 out b)) (joined c.pieces) ≡ ended (pos 64) b =
      sym c.sends
      ∙ (send_packet_rs485-ends c.writes b (omega (arith, e)) c.takes (omega (arith, e, c.enough))
          ∙ ap (λ z. ended (pos z) b) e) in
    let whole : joined c.pieces ≡ b = ap ended_bytes sent_ in
    let got =
      sym c.receives
      ∙ receive_packet_rs485_pieces 0 64 c.pieces c.in_pieces (ap length whole ∙ e) (omega arith) in
    (ap ended_code sent_, ap received_pair (got ∙ ap (received (pos 64)) whole))

-- An interface that may send and whose send function is `send_packet_rs485` is given a message
-- without a zero byte, other than one that overflows the frame, and an interface of another node
-- that may receive is at the other end of the line. Its receive function is `receive_packet_rs485`,
-- every `write` takes one byte or more, 64 calls are answered, the line brings the bytes in any
-- pieces, and the receiver's thread is created. Then the sending ends with the code 0, and the
-- receiver hands to its thread exactly the message, cut to 63 characters.
pub rs485_round_trip :
    (w : Wire) (m : Manager) (name message : Str) (f : InterfaceInfo) (old : List ℕ) (g : ℕ)
    → Ready w m name message f old g (c_str "send_packet_rs485") w.rs485_frame 63
    → overflows 63 g message ≡ false
    → (l : Line) (m2 : Manager) (linked_node name2 : Str) (f2 : InterfaceInfo) (wait : ℤ)
    → Listens m2 name2 f2
    → l.creates ≡ pos 0
    → Carries w l f.rs485_info.temporary_fd f2.rs485_info.temporary_fd wait (frame 63 message)
    → (send_message w m (some name) (some message)
        ≡ some record {
          code = success;
          call = some (send_packet_rs485 f.rs485_info.temporary_fd (frame 63 message));
        })
      × (receive_message l m2 (some linked_node) (some name2) wait
          ≡ some record {
            code = some success;
            handed = some (data_of linked_node name2 (take 63 message));
          })
unfolding strcmp_eq receive_message call_by_func receive_by
rs485_round_trip w m name message f old g r o l m2 linked_node name2 f2 wait h t c =
    let (out, size, text) = send_message_rs485 w m name message f old g r in
    let (sent_, got) =
      carried w l f.rs485_info.temporary_fd f2.rs485_info.temporary_fd wait (frame 63 message) size
        c in
    (rw (out, o, sent_) refl, rw (h.at, h.not_sending, h.not_closed, h.func_is, got, text, t) refl)
