-- ===== src/Tests/Operators.antt =====
-- Runs of a listener of src/one_interface_operator.c through two rounds.
use monitor_node.Prelude.{
  ◌≡◌, refl, ℤ, pos, Str, c_str, strcmp_eq, name_in, print_int, print_unsigned, some, List, [], ◌∷◌,
  ◌++◌, arith, tdiv, to_i32, ◌-ℤ◌,
}
use monitor_node.InfoManager.{CommunicationInfo}
use monitor_node.InfoManager.Interfaces.{get_interface_index}
use monitor_node.InfoManager.Records.{find_record}
use monitor_node.OneInterface.{Node, current_round_at}
use monitor_node.MsgGenerator.{msg_generator_transfer, generate_eth_test_msg}
use monitor_node.OneInterface.Deal.Counting.{Count, run_lengths}
use monitor_node.OneInterface.Deal.Step.{Shows}
use monitor_node.OneInterface.Deal.Results.{Arrival, over, Recorded}
use monitor_node.OneInterface.Deal.Trace.{deal_all, deal_all-run_lengths}
use monitor_node.Tests.Fixtures.{node, platform, eth_if, result_of}

abbrev listener : Node
listener = record {
  manager = node;
  initialized_flag = pos 0;
  cnt_array = some (0 ∷ 0 ∷ 0 ∷ []);
  cnt_mutex_array = some 3;
  round_array = some (pos 0 ∷ pos 0 ∷ pos 0 ∷ []);
}

-- A message of the round at `now`.
abbrev arrival : ℤ → Str → Arrival
arrival t s = record { now = t; later = t; msg = s }

-- Two messages in round 1, and one in round 2.
abbrev arrivals : List Arrival
arrivals =
    arrival (pos 12) (c_str "round 1 test for far0")
    ∷ arrival (pos 20) (c_str "round 2 test for far0")
    ∷ []

abbrev first_arrival : Arrival
first_arrival = arrival (pos 10) (c_str "round 1 test for far0")

deal_all-run_lengths_example :
    (s' : Node) × (ds : List CommunicationInfo) × (reports : List Count) × (last : Count)
    × (deal_all platform [] node
          (c_str "node2")
          (c_str "eth0")
          eth_if
          listener
          (first_arrival ∷ arrivals)
        ≡ some s')
    × (s'.manager ≡ over node ds)
    × Shows s' (pos 0) last
    × (reports ++ last ∷ [] ≡ run_lengths (pos 1 ∷ pos 1 ∷ pos 2 ∷ []))
    × Recorded (c_str "eth0") reports node.communication_info_array ds
unfolding get_interface_index strcmp_eq find_record current_round_at msg_generator_transfer
    generate_eth_test_msg name_in print_int print_unsigned to_i32 tdiv ◌-ℤ◌
deal_all-run_lengths_example =
    deal_all-run_lengths platform [] node (c_str "node2") (c_str "eth0") eth_if listener
      (record { hits = 0; round = pos 0 }) first_arrival arrivals refl refl refl
      (record { cnt = refl; round = refl }) refl (omega arith)
      (result_of (c_str "eth0") 0 (pos 0) (pos 1), refl) (refl, (refl, (refl, tt))) (omega arith)
      (omega arith, (omega arith, tt))
