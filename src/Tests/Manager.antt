-- ===== src/Tests/Manager.antt =====
-- Runs of the theorems about src/base/info_manager.c.
use monitor_node.Prelude.{
  ℕ, ◌≡◌, refl, ◌⊎◌, ◌^◌, inr, ℤ, pos, error, success, c_str, strcmp_eq, none, some, List, [], ◌∷◌,
  ◌<◌, ◌+◌, map, length, arith, All, name_in, true, false,
}
use monitor_node.InfoManager.{Manager, InterfaceInfo, CommunicationInfo}
use monitor_node.InfoManager.File.{holds, write_communication_info_array_to_json}
use monitor_node.InfoManager.File.Laws.{write_communication_info_array_to_json_lem}
use monitor_node.InfoManager.Start.{Boot, start_info_manager_from_split_json}
use monitor_node.InfoManager.Start.Laws.{IsInitial, start_info_manager_lem}
use monitor_node.InfoManager.Interfaces.{}
use monitor_node.InfoManager.Records.{find_record}
use monitor_node.InfoManager.Newest.{next_batch, parse_newest_communication_infos_to_json}
use monitor_node.InfoManager.Newest.Laws.{pending, unflag, next_batch_lem}
use monitor_node.InfoManager.Newest.Drain.{backlog, batches, batches_drain}
use monitor_node.InfoManager.Sync.{update_communication_info_array_from_json}
use monitor_node.InfoManager.Sync.RoundTrip.{IsPrintable, fresh, find_record-sync}
use monitor_node.InfoManager.Legal.{
  check_single_send_base_func_legal, check_single_recv_base_func_legal,
  check_all_send_base_func_legal, check_all_recv_base_func_legal,
}
use monitor_node.InfoManager.Legal.Laws.{first_interface_passes}
use monitor_node.Tests.Codec.{parse-print_document}
use monitor_node.Tests.Fixtures.{eth_if, node, platform, rs_if, interface_of, result_of}

-- The interface of the wrong function name.
abbrev odd_if : InterfaceInfo
odd_if = interface_of [] (c_str "x") [] (c_str "send_packet") [] [] (c_str "closed")

next_batch_lem_example :
    let (taken, m') = next_batch node (pos 2) (pos 1) in
    (taken ≡ result_of (c_str "can3") 20 (pos 4) (pos 1) ∷ [])
    × (map unflag m'.communication_info_array ≡ map unflag node.communication_info_array)
    × (length (pending m'.communication_info_array) + length taken ≡ 2)
next_batch_lem_example = next_batch_lem node 2 (omega arith)

-- One result is a batch.
one : 0 < 1
one = omega arith

batches_drain_example : (backlog (batches 1 one 5 node).1 ≡ 0) × ((batches 1 one 5 node).0 ≡ 2)
batches_drain_example = batches_drain 1 one 5 node (inr (omega arith)) (omega arith)

-- The results of the node can be printed.
printable :
    (name : List ℕ) (rx : ℕ) (flag : ℤ)
    → rx < 2 ^ 64
    → IsPrintable platform (result_of name rx (pos 4) flag)
printable name rx flag h = record {
  time = record {
    tm = pos 100;
    tm' = pos 100;
    text = c_str "d";
    local = refl;
    printed = refl;
    parsed = refl;
    made = refl;
  };
  tx_fits = omega arith;
  rx_fits = h;
  round_fits = omega arith;
}

find_record-sync_example :
    (m : Manager) × (update_communication_info_array_from_json platform node
        (parse_newest_communication_infos_to_json platform node (pos 1) (pos 1)).0
      ≡ some (success, m))
    × (find_record (c_str "can3") m.communication_info_array
        ≡ some (fresh (result_of (c_str "can3") 20 (pos 4) (pos 1))))
unfolding next_batch strcmp_eq
find_record-sync_example =
    find_record-sync platform parse-print_document node node (pos 1) (pos 1) (c_str "can3")
      (printable (c_str "can3") 20 (pos 1) (omega arith), tt)

first_interface_passes_example :
    (check_single_send_base_func_legal odd_if ≡ error)
    × (check_all_send_base_func_legal (odd_if ∷ rs_if ∷ []) ≡ success)
    × (check_single_recv_base_func_legal rs_if ≡ error)
    × (check_all_recv_base_func_legal (rs_if ∷ []) ≡ success)
unfolding name_in strcmp_eq
first_interface_passes_example = first_interface_passes odd_if rs_if (rs_if ∷ []) [] refl refl

write_communication_info_array_to_json_lem_example :
    let (file, m') =
      write_communication_info_array_to_json platform
        (record { opens = true; locks = true; writes = none })
        node in
    (((true ≡ true)
        × (file ≡ holds [])
        × (pending m'.communication_info_array ≡ [])
        × ((next_batch m' (pos 6) (pos 1)).0 ≡ []))
      ⊎ ((true ≡ false) × (file ≡ holds []) × (m' ≡ node)))
    × (map unflag m'.communication_info_array ≡ map unflag node.communication_info_array)
write_communication_info_array_to_json_lem_example =
    write_communication_info_array_to_json_lem platform
      (record { opens = true; locks = true; writes = none }) node 6 (omega arith)

-- A heap that gives sevens.
abbrev boot : Boot
boot = record {
  clock = λ i. pos 100;
  rounds = λ i. pos 7;
  flags = λ i. pos 7;
  sock_addrs = λ i. 4096;
}

start_info_manager_lem_example :
    let m' = start_info_manager_from_split_json platform boot (eth_if ∷ rs_if ∷ []) node in
    (map (λ (g : InterfaceInfo). g.interface_name) m'.interface_info_array
      ≡ c_str "eth0" ∷ c_str "rs0" ∷ [])
    × (map (λ (c : CommunicationInfo). c.interface_name) m'.communication_info_array
        ≡ c_str "eth0" ∷ [])
    × All IsInitial m'.communication_info_array
unfolding name_in strcmp_eq
start_info_manager_lem_example =
    start_info_manager_lem platform boot eth_if (rs_if ∷ []) node (refl, (refl, tt))
