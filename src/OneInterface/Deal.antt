-- ===== src/OneInterface/Deal.antt =====
-- src/one_interface_operator.c: `deal_with_mnt`, which counts a test message that arrives in its
-- round, or takes over the results that a message carries. `now` and `later` are the two readings
-- of the clock. `none` is a fault: an index outside of an array, a counter or a test message that
-- overflows, or a bad JSON member.
pub mod Counting
pub mod Step
pub mod Setup
pub mod Results
pub mod Trace
use monitor_node.Prelude.{
  ℕ, suc, ℤ, pos, eqb_ℤ, ltb_ℤ, ltb, int_max, Str, strcmp_eq, Option, none, some, if◌then◌else◌,
  ◌>>=◌,
}
use monitor_node.InfoManager.{Manager}
use monitor_node.InfoManager.Interfaces.{
  get_interface_index, get_msg_generator_of_sender_by_index, get_linked_interface_name_by_index,
  get_interface_mode_by_index,
}
use monitor_node.InfoManager.Records.{update_communication_info_array}
use monitor_node.InfoManager.Json.{Platform}
use monitor_node.InfoManager.Sync.{update_communication_info_array_from_json}
use monitor_node.MsgGenerator.{msg_generator_transfer}
use monitor_node.OneInterface.State.{
  Node, at_index, put_index, mutex_at, packages_num_one_time, current_round_at,
}

-- The branch of a message that is the expected one.
unfoldable pub count_message : Node → ℤ → Str → Str → ℤ → ℤ → Option Node
count_message s ind linked_node listened_interface later current_round =
    at_index s.cnt_array ind >>= λ cnt. at_index s.round_array ind >>= λ round.
    let restarted = λ (m : Manager). put_index s.cnt_array ind 1 >>= λ cnts.
    put_index s.round_array ind current_round >>= λ rounds.
    some (record s { manager = m; cnt_array = some cnts; round_array = some rounds }) in
    let reported =
      (update_communication_info_array s.manager linked_node listened_interface later
        packages_num_one_time cnt round).1 in
    if eqb_ℤ round (pos 0)
    then restarted s.manager
    else if ltb_ℤ round current_round
    then restarted reported
    else if ltb cnt int_max
    then (put_index s.cnt_array ind (suc cnt) >>= λ cnts. some (record s { cnt_array = some cnts }))
    else none

-- `unset` is what the local buffer `expect_msg` holds at first.
unfoldable pub deal_with_mnt : Platform → Str → Node → ℤ → ℤ → Str → Str → Str → Option Node
unfolding count_message
deal_with_mnt p unset s now later linked_node listened_interface msg =
    let m = s.manager in
    let ind = get_interface_index m listened_interface in
    let current_round = current_round_at m now in
    mutex_at s ind >>= λ _. get_msg_generator_of_sender_by_index m ind >>= λ generator.
    get_linked_interface_name_by_index m ind >>= λ linked_interface.
    get_interface_mode_by_index m ind >>= λ mode.
    msg_generator_transfer m generator linked_interface mode current_round unset
    >>= λ (ret, expect_msg).
        if ltb_ℤ ret (pos 0)
        then some s
        else if strcmp_eq msg expect_msg
        then count_message s ind linked_node listened_interface later current_round
        else update_communication_info_array_from_json p m msg >>= λ (code, m').
            some (record s { manager = m' })
