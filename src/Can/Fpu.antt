-- ===== src/Can/Fpu.antt =====
-- src/base/can_fpu_recv_send.c: the calls of the SDK of the CAN card and of the clock are
-- parameters. The buffer `msg` has `length` bytes, and is not NULL.
pub mod Laws
use monitor_node.Prelude.{
  ℕ, ltb, ltb_ℤ, ◌-ℤ◌, ◌==◌, ◌&&◌, ℤ, pos, error, success, Bool, true, List, [], ◌∷◌, take, drop,
  if◌then◌else◌,
}
use monitor_node.Firmware.Send.{max_can_data_length}

-- `MAX_CAN_DATA_LENGTH` at most.
abbrev pub capped : ℕ → ℕ
capped length_ = if ltb max_can_data_length length_ then max_can_data_length else length_

unfoldable pub is_all_zeros : List ℕ → Bool
is_all_zeros [] = true
is_all_zeros (x ∷ xs) = (x == 0) && is_all_zeros xs

-- `OFFSET_OF_TARGET_DATA_IN_RECEIVED_CAN_DATA_PACKAGE`
abbrev pub offset_of_target_data : ℕ
offset_of_target_data = 16

-- A turn of the loop: what the clock tells, and the array `data_frame` of 86 bytes after the call of
-- `appCanDataRecv`.
pub record Turn : Type 0 where
  pub time : ℤ
  pub data_frame : List ℕ

-- A loop that goes on when the turns are used up, the code -1, or the code 0 and the bytes put in
-- `msg`.
pub data Polling : Type 0 where
  polling : Polling
  timed_out : Polling
  arrived : List ℕ → Polling

unfoldable pub poll : ℤ → ℤ → ℕ → List Turn → Polling
unfolding is_all_zeros
poll now wait_time len [] = polling
poll now wait_time len (t ∷ turns) =
    let rest = poll now wait_time len turns in
    if ltb_ℤ (t.time -ℤ now) wait_time
    then (if is_all_zeros t.data_frame
        then rest
        else arrived (take len (drop offset_of_target_data t.data_frame)))
    else timed_out

unfoldable pub receive_packet_can_fpu : ℤ → ℕ → ℤ → List Turn → Polling
unfolding poll
receive_packet_can_fpu now length_ wait_time turns = poll now wait_time (capped length_) turns

-- `app_can_data_send` is the SDK's answer for a channel and the bytes that are sent.
unfoldable pub send_packet_can_fpu : (ℤ → List ℕ → ℤ) → ℤ → List ℕ → ℕ → ℤ
send_packet_can_fpu app_can_data_send channel msg length_ =
    if ltb_ℤ (app_can_data_send channel (take (capped length_) msg)) (pos 0) then error else success
