-- ===== src/Tests/Groups.antt =====
-- Runs of src/interface_group_operator.c.
use monitor_node.Prelude.{
  ℕ, ◌≡◌, refl, pos, c_str, true, false, none, some, List, [], ◌∷◌, All, map, replicate, text_at,
  Yields, arith,
}
use monitor_node.Initializer.Common.{Host}
use monitor_node.InterfaceGroup.Supervisor.{
  Reply, forked, still_running, child_ended, forking, supervise, supervisor_start,
}
use monitor_node.InterfaceGroup.Supervisor.Laws.{Guarded, supervise-Guarded}
use monitor_node.InterfaceGroup.Start.{test_or_listen_upon_interface_group}
use monitor_node.InterfaceGroup.Start.Laws.{Starts, test_or_listen_upon_interface_group_lem}
use monitor_node.InterfaceGroup.Input.{input_split_and_copy, parts_size, strtok_all}
use monitor_node.InterfaceGroup.Input.Laws.{expected, input_split_and_copy_lem}
use monitor_node.InterfaceGroup.Params.{at_cmd, main_argv, main_interactive}
use monitor_node.InterfaceGroup.Params.Laws.{IsValid, main-IsValid}
use monitor_node.Tests.Fixtures.{node}

abbrev replies : List Reply
replies = forked 7 ∷ still_running true ∷ still_running false ∷ forked 8 ∷ child_ended ∷ []

supervise-Guarded_example :
    Guarded forking
      (supervise supervisor_start replies).1
      (supervise supervisor_start replies).0.phase
supervise-Guarded_example = supervise-Guarded replies

abbrev host : Host
host = record {
  tty = record { open_answer = λ p. pos 4; found = none; sets = true };
  com_can_std_cfg_init = λ c b. pos 0;
  socket_answer = pos 6;
  ioctl_answer = pos 0;
  bind_answer = pos 0;
  unset_ip_t = replicate 16 7;
}

-- The interfaces of the node have no initializer, and are refused.
test_or_listen_upon_interface_group_lem_example :
    Yields
      (Starts (λ i. host) node)
      (test_or_listen_upon_interface_group (λ i. host) (λ i. true) node)
test_or_listen_upon_interface_group_lem_example =
    test_or_listen_upon_interface_group_lem (λ i. host) node

abbrev parts : List (List ℕ)
parts = replicate 50 9 ∷ replicate 50 9 ∷ replicate 50 9 ∷ []

input_split_and_copy_lem_example :
    (rs : List (List ℕ)) × (input_split_and_copy (some (c_str "a b")) b' ' parts parts_size
      ≡ some rs)
    × (map text_at rs ≡ map some (expected (strtok_all b' ' (c_str "a b")) parts_size))
input_split_and_copy_lem_example =
    input_split_and_copy_lem (c_str "a b") b' ' parts parts_size
      (omega arith, (omega arith, (omega arith, tt))) (refl, (refl, (refl, tt)))

main-IsValid_example :
    Yields
      (All (IsValid (λ f. true)))
      (main_argv (λ f. true) (c_str "app" ∷ c_str "0" ∷ c_str "a" ∷ c_str "b" ∷ []))
    × Yields
        (All (IsValid (λ f. true)))
        (main_interactive (λ f. true) at_cmd parts (some (c_str "2") ∷ some (c_str "n a b") ∷ []))
main-IsValid_example =
    main-IsValid (λ f. true) (c_str "app" ∷ c_str "0" ∷ c_str "a" ∷ c_str "b" ∷ []) parts
      (some (c_str "2") ∷ some (c_str "n a b") ∷ [])
