-- ===== src/OneInterface/Round.antt =====
-- src/one_interface_operator.c: `test_upon_one_interface_in_one_time`. The waits are left out. The
-- record `World` has what the calls outside of the program answer: the clock and the base functions
-- at each package, the base functions at each repetition of each sync, the shell, the disk, and what
-- the local buffer `message` holds at first.
pub mod Frame
pub mod Once
pub mod Packages
pub mod Laws
use monitor_node.Prelude.{
  ℕ, zero, suc, false, true, ℤ, pos, ltb_ℤ, eqb_ℤ, error, Str, strcmp_eq, Bool, ◌||◌, Option, none,
  some, List, [], ◌∷◌, ◌++◌, if◌then◌else◌, ◌>>=◌,
}
use monitor_node.InfoManager.{Manager}
use monitor_node.InfoManager.Interfaces.{
  get_interface_index, get_interface_name_by_index, get_msg_generator_of_sender_by_index,
  get_interface_status_by_index, set_last_work_time, get_center_interface_name,
  get_interface_name_by_linked_interface_name,
}
use monitor_node.InfoManager.Json.{Platform}
use monitor_node.InfoManager.Newest.{parse_newest_communication_infos_to_json}
use monitor_node.InfoManager.File.{Disk, File, write_communication_info_array_to_json}
use monitor_node.StatusChooser.{receiving, closed, test_mode}
use monitor_node.MsgGenerator.{msg_generator_transfer}
use monitor_node.Firmware.Send.{Sent, Wire, send_message}
use monitor_node.OneInterface.State.{Node, at_index, put_index, current_round_at}
use monitor_node.OneInterface.Choose.{
  Operation, download_all_communication_infos_locally, do_nothing_with_the_communication_infos,
  sync_the_communication_infos, choose_communication_info_operation_at_specified_interface,
  update_status_in_current_round,
}

pub record World : Type 1 where
  pub platform : Platform
  pub is_up : Str → Bool
  pub clock : ℕ → ℤ
  pub wire : ℕ → Wire
  pub sync_wire : ℕ → ℕ → Wire
  pub disk : Disk
  pub unset : Str

-- What the node does to the world, in order.
pub data Event : Type 0 where
  ran : Str → Event
  sent : Sent → Event
  wrote : File → Event

-- `SYNC_PARTS_NUM`, `SYNC_TIMES` and `MAX_SYNC_COMMUNICATION_INFO_NUM_FOR_ONE_TIME`
abbrev pub sync_parts_num : ℕ
sync_parts_num = 2

abbrev pub sync_times : ℕ
sync_times = 2

abbrev pub max_sync_num : ℤ
max_sync_num = pos 6

module _ (w : World) where
  -- The loop over the packages, from number `i` with `n` of them left.
  unfoldable pub send_packages : ℕ → ℕ → ℤ → Str → Str → Manager → Option (Manager × List Event)
  send_packages zero i ind name message m = some (m, [])
  send_packages (suc n) i ind name message m =
      let skipped = send_packages n (suc i) ind name message m in
      get_interface_status_by_index m ind >>= λ status.
      if strcmp_eq status receiving || strcmp_eq status closed
      then skipped
      else (set_last_work_time m ind (w.clock i) >>= λ m1.
          send_message (w.wire i) m1 (some name) (some message) >>= λ r.
          send_packages n (suc i) ind name message m1 >>= λ (m2, es). some (m2, sent r ∷ es))

  -- The inner loop of a sync, which sends one batch several times: whether a send failed, and what
  -- was sent.
  unfoldable pub sync_batch : ℕ → ℕ → ℕ → ℤ → Str → Manager → Option (Bool × List Event)
  sync_batch zero i j ind text m = some (false, [])
  sync_batch (suc n) i j ind text m =
      let rest = sync_batch n i (suc j) ind text m in
      get_center_interface_name m ind >>= λ center.
      send_message (w.sync_wire i j) m (get_interface_name_by_linked_interface_name m center)
        (some text)
      >>= λ r.
          if eqb_ℤ r.code error
          then some (true, sent r ∷ [])
          else rest >>= λ (failed, es). some (failed, sent r ∷ es)

  -- The outer loop; a failure ends the function.
  unfoldable pub sync_parts : ℕ → ℕ → ℤ → Manager → Option (Manager × List Event)
  unfolding sync_batch
  sync_parts zero i ind m = some (m, [])
  sync_parts (suc n) i ind m =
      let (text, m1) = parse_newest_communication_infos_to_json w.platform m max_sync_num (pos 1) in
      let rest = sync_parts n (suc i) ind m1 in
      sync_batch sync_times i 0 ind text m1 >>= λ (failed, es).
      if failed then some (m1, es) else rest >>= λ (m2, fs). some (m2, es ++ fs)

  unfoldable pub operate : Operation → ℤ → Manager → Option (Manager × List Event)
  unfolding sync_parts
  operate download_all_communication_infos_locally ind m =
      let (file, m') = write_communication_info_array_to_json w.platform w.disk m in
      some (m', wrote file ∷ [])
  operate do_nothing_with_the_communication_infos ind m = some (m, [])
  operate sync_the_communication_infos ind m = sync_parts sync_parts_num 0 ind m

  unfoldable pub events_of : List Str → List Event
  events_of [] = []
  events_of (c ∷ cs) = ran c ∷ events_of cs

  -- A round of the test that has just begun.
  unfoldable pub test_in_round : ℤ → Str → ℕ → ℤ → Manager → Option (Manager × List Event)
  unfolding send_packages operate events_of
  test_in_round ind name packages_num current_round m =
      update_status_in_current_round w.is_up m name test_mode current_round >>= λ o.
      let m1 = o.manager in
      get_msg_generator_of_sender_by_index m1 ind >>= λ generator.
      get_interface_name_by_index m1 ind >>= λ own_name.
      msg_generator_transfer m1 generator own_name test_mode current_round w.unset
      >>= λ (ret, message).
          if ltb_ℤ ret (pos 0)
          then some (m1, events_of o.commands)
          else (send_packages packages_num 0 ind name message m1 >>= λ (m2, es).
              choose_communication_info_operation_at_specified_interface m2 ind >>= λ operation.
              operate operation ind m2 >>= λ (m3, fs).
              some (m3, events_of o.commands ++ (es ++ fs)))

  unfoldable pub test_upon_one_interface_in_one_time :
      Node → ℤ → Str → ℕ → Option (Node × List Event)
  unfolding test_in_round
  test_upon_one_interface_in_one_time s now name packages_num =
      let current_round = current_round_at s.manager now in
      let ind = get_interface_index s.manager name in
      at_index s.round_array ind >>= λ round.
      if eqb_ℤ round (pos 0)
      then (put_index s.round_array ind current_round >>= λ rounds.
          some (record s { round_array = some rounds }, []))
      else if ltb_ℤ round current_round
      then (put_index s.round_array ind current_round >>= λ rounds.
          test_in_round ind name packages_num current_round s.manager >>= λ (m, es).
          some (record s { round_array = some rounds; manager = m }, es))
      else some (s, [])
