-- ===== src/Firmware/Send/Laws.antt =====
-- Which frame `send_message` of src/firmware.c puts on a serial line, and when it sends nothing.
use monitor_node.Prelude.{
  ℕ, zero, suc, ◌+◌, ◌<◌, ◌^◌, ◌≡◌, refl, ◌⊎◌, inl, inr, ℤ, Str, c_str, strcmp_eq, text_at, Bool,
  false, not, ◌&&◌, none, some, List, [], ◌∷◌, ◌++◌, length, take, ◌==◌, arith, if◌then◌else◌,
}
use monitor_node.InfoManager.{Manager, InterfaceInfo}
use monitor_node.InfoManager.Interfaces.{get_interface_index, interface_at}
use monitor_node.StatusChooser.{receiving, closed}
use monitor_node.Firmware.Fill.{fill_message_to_max_msg_len}
use monitor_node.Firmware.Fill.Laws.{pad, IsText, fill_message_to_max_msg_len_lem, text_at-pad}
use monitor_node.Firmware.Send.{
  Call, send_packet_rs485, send_packet_can_fpu, send_packet_can_gpu, Wire, not_sent, sent_by,
  send_message,
}

-- An interface of this node whose status is "receiving" or "closed" sends nothing, and the code is
-- -1.
pub send_message_silent :
    (w : Wire) (m : Manager) (name message : Str) (f : InterfaceInfo)
    → interface_at m (get_interface_index m name) ≡ some f
    → (f.status ≡ receiving) ⊎ (f.status ≡ closed)
    → send_message w m (some name) (some message) ≡ some not_sent
unfolding send_message strcmp_eq
send_message_silent w m name message f e (inl s) = rw (e, s)
send_message_silent w m name message f e (inr s) = rw (e, s)

-- The interface may send.
abbrev pub IsOpen : InterfaceInfo → Type 0
IsOpen f = (strcmp_eq f.status receiving ≡ false) × (strcmp_eq f.status closed ≡ false)

-- The frame that a message of `n` characters at most makes.
abbrev pub frame : ℕ → Str → List ℕ
frame n message = pad n message ++ 0 ∷ []

-- A message of exactly `n` characters meets a last byte that is not zero.
abbrev pub overflows : ℕ → ℕ → Str → Bool
overflows n g message = (length message == n) && not (g == 0)

fill_frame :
    (n g : ℕ) (message : Str) (old buffer : List ℕ)
    → buffer ≡ old ++ g ∷ []
    → length old ≡ n
    → n < 2 ^ 64
    → IsText message
    → fill_message_to_max_msg_len message buffer n
      ≡ (if overflows n g message then none else some (frame n message))
fill_frame n g message old buffer b l h t =
    rw (b, ← l) (fill_message_to_max_msg_len_lem message old g t (omega arith))

pub length-frame : (n : ℕ) (message : Str) → length (frame n message) ≡ n + 1
length-frame zero message = refl
length-frame (suc n) [] = omega (arith, length-frame n [])
length-frame (suc n) (c ∷ message) = omega (arith, length-frame n message)

module _ (w : Wire) (m : Manager) (name message : Str) (f : InterfaceInfo) (old : List ℕ)
    (g : ℕ) where
  -- The interface is open and its local frame held `old` and, in its last byte, `g`.
  pub record Ready (func : Str) (buffer : List ℕ) (n : ℕ) : Type 0 where
    pub at : interface_at m (get_interface_index m name) ≡ some f
    pub open_ : IsOpen f
    pub func_is : f.base_send_func ≡ func
    pub held : buffer ≡ old ++ g ∷ []
    pub size : length old ≡ n
    pub text : IsText message

  -- An interface of this node that is neither receiving nor closed and whose send function is
  -- `send_packet_rs485` is given a message without a zero byte, and the local frame has 64 bytes. A
  -- message of exactly 63 characters makes a fault, unless the last byte of the local frame was
  -- zero. Any other goes out in one frame of 64 bytes whose text is the message cut to 63
  -- characters, and the code is -1 if the line refuses the frame, and else 0.
  pub send_message_rs485 :
      Ready (c_str "send_packet_rs485") w.rs485_frame 63
      → (send_message w m (some name) (some message) ≡ (
          if overflows 63 g message
          then none
          else some (sent_by w (send_packet_rs485 f.rs485_info.temporary_fd (frame 63 message)))))
        × (length (frame 63 message) ≡ 64)
        × (text_at (frame 63 message) ≡ some (take 63 message))
  unfolding send_message strcmp_eq
  send_message_rs485 r = (
    rw (r.at, r.open_.0, r.open_.1, r.func_is)
        (rw (fill_frame 63 g message old w.rs485_frame r.held r.size (omega arith) r.text)
          (ground arith)),
    length-frame 63 message,
    text_at-pad 63 message r.text,
  )

  -- An interface of this node that is neither receiving nor closed and whose send function is that
  -- of a CAN channel of either kind is given a message without a zero byte, and the local frame has
  -- 8 bytes. A message of exactly 7 characters makes a fault, unless the last byte of the local
  -- frame was zero. Any other goes out in one frame of 8 bytes whose text is the message cut to 7
  -- characters, and the code is -1 if the channel refuses the frame, and else 0.
  pub send_message_can :
      (send_packet_can : ℤ → List ℕ → Call)
      → ((f.base_send_func ≡ c_str "send_packet_can_fpu") × (send_packet_can ≡ send_packet_can_fpu))
        ⊎ ((f.base_send_func ≡ c_str "send_packet_can_gpu")
            × (send_packet_can ≡ send_packet_can_gpu))
      → Ready f.base_send_func w.can_frame 7
      → (send_message w m (some name) (some message) ≡ (
          if overflows 7 g message
          then none
          else some (sent_by w (send_packet_can f.can_info.can_id (frame 7 message)))))
        × (length (frame 7 message) ≡ 8)
        × (text_at (frame 7 message) ≡ some (take 7 message))
  unfolding send_message strcmp_eq
  send_message_can call kind r = (
    elim kind [
      | inl (k, c) ↦
          rw (r.at, r.open_.0, r.open_.1, k, c)
            (rw (fill_frame 7 g message old w.can_frame r.held r.size (omega arith) r.text)
              (ground arith))
      | inr (k, c) ↦
          rw (r.at, r.open_.0, r.open_.1, k, c)
            (rw (fill_frame 7 g message old w.can_frame r.held r.size (omega arith) r.text)
              (ground arith))
    ],
    length-frame 7 message,
    text_at-pad 7 message r.text,
  )
