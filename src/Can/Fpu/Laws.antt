-- ===== src/Can/Fpu/Laws.antt =====
-- Which frame the CAN driver of src/base/can_fpu_recv_send.c gives.
use monitor_node.Prelude.{
  ◌⊎◌, inl, inr, ℕ, ◌≡◌, refl, ltb_ℤ, ◌-ℤ◌, ℤ, true, false, List, [], ◌∷◌, ◌++◌, All, take, drop,
  if◌then◌else◌,
}
use monitor_node.Can.Fpu.{
  capped, is_all_zeros, offset_of_target_data, Turn, Polling, timed_out, arrived, poll,
  receive_packet_can_fpu,
}

-- The turn is in time and has no data.
abbrev pub IsQuiet : ℤ → ℤ → Turn → Type 0
IsQuiet now wait_time t =
    (ltb_ℤ (t.time -ℤ now) wait_time ≡ true) × (is_all_zeros t.data_frame ≡ true)

-- What the turn after the quiet ones gives.
abbrev pub outcome_of : ℤ → ℤ → ℕ → Turn → List Turn → Polling
outcome_of now wait_time len t rest =
    if ltb_ℤ (t.time -ℤ now) wait_time
    then (if is_all_zeros t.data_frame
        then poll now wait_time len rest
        else arrived (take len (drop offset_of_target_data t.data_frame)))
    else timed_out

poll_quiet :
    (now wait_time : ℤ) (len : ℕ) (quiet : List Turn) (t : Turn) (rest : List Turn)
    → All (IsQuiet now wait_time) quiet
    → poll now wait_time len (quiet ++ t ∷ rest) ≡ outcome_of now wait_time len t rest
unfolding poll
poll_quiet now wait_time len [] t rest a = refl
poll_quiet now wait_time len (q ∷ quiet) t rest ((e, z), a) =
    rw (e, z) (poll_quiet now wait_time len quiet t rest a)

-- After any number of turns in time in which all bytes of the array are zero, a turn in time with
-- another byte gives the code 0 and the data of its frame, from byte 16 on and eight bytes at most,
-- and a turn that is late gives the code -1, with data or without, whatever would come after.
pub receive_packet_can_fpu_first :
    (now wait_time : ℤ) (length_ : ℕ) (quiet : List Turn) (t : Turn) (rest : List Turn)
    → All (IsQuiet now wait_time) quiet
    → (ltb_ℤ (t.time -ℤ now) wait_time ≡ false) ⊎ (is_all_zeros t.data_frame ≡ false)
    → receive_packet_can_fpu now length_ wait_time (quiet ++ t ∷ rest) ≡ (
        if ltb_ℤ (t.time -ℤ now) wait_time
        then arrived (take (capped length_) (drop offset_of_target_data t.data_frame))
        else timed_out)
unfolding receive_packet_can_fpu
receive_packet_can_fpu_first now wait_time length_ quiet t rest a (inl late) =
    rw (poll_quiet now wait_time (capped length_) quiet t rest a, late) refl
receive_packet_can_fpu_first now wait_time length_ quiet t rest a (inr z) =
    rw (poll_quiet now wait_time (capped length_) quiet t rest a, z) refl
