-- ===== src/OneInterface/Round/Once.antt =====
-- src/one_interface_operator.c: a tester works at most once in a round.
use monitor_node.Prelude.{
  Yields, Yields-bind, Yields-then, Yields-if, ℕ, ◌≡◌, refl, ◌∙◌, sym, subst, inl, inr, ℤ, pos,
  ltb_ℤ, eqb_ℤ, Str, false, none, some, List, [], arith, Bool-cases, Option-cases,
}
use mathlib.Core.Option.{some-injective, none-ne-some}
use monitor_node.InfoManager.{Manager}
use monitor_node.InfoManager.Interfaces.{
  get_interface_index, get_msg_generator_of_sender_by_index, get_interface_name_by_index,
}
use monitor_node.InfoManager.File.{write_communication_info_array_to_json}
use monitor_node.StatusChooser.{test_mode}
use monitor_node.MsgGenerator.{msg_generator_transfer}
use monitor_node.OneInterface.State.{Node, at_index, put_index, current_round_at}
use monitor_node.OneInterface.Deal.Step.{at-put}
use monitor_node.OneInterface.Choose.{
  Operation, download_all_communication_infos_locally, do_nothing_with_the_communication_infos,
  sync_the_communication_infos, update_status_in_current_round,
  choose_communication_info_operation_at_specified_interface,
}
use monitor_node.OneInterface.Round.{
  World, Event, send_packages, operate, test_in_round, sync_parts_num,
  test_upon_one_interface_in_one_time,
}
use monitor_node.OneInterface.Round.Frame.{
  Frame, same, Frame-trans, get_interface_index-Frame, current_round_at-Frame, send_packages-Frame,
  sync_parts-Frame, update_status-Frame,
}

module _ (w : World) where
  operate-Frame :
      (o : Operation) (ind : ℤ) (m : Manager) → Yields (λ r. Frame m r.0) (operate w o ind m)
  unfolding operate write_communication_info_array_to_json
  operate-Frame download_all_communication_infos_locally ind m = elim (Bool-cases w.disk.opens) [
    | inr o ↦ rw o (same m)
    | inl o ↦ elim (Bool-cases w.disk.locks) [
      | inr l ↦ rw (o, l) (same m)
      | inl l ↦ rw (o, l) (record { named = refl; begun = refl; valid = λ v. v })
    ]
  ]
  operate-Frame do_nothing_with_the_communication_infos ind m = same m
  operate-Frame sync_the_communication_infos ind m = sync_parts-Frame w sync_parts_num 0 ind m

  pub test_in_round-Frame :
      (ind : ℤ) (name : Str) (n : ℕ) (r : ℤ) (m : Manager)
      → Yields (λ q. Frame m q.0) (test_in_round w ind name n r m)
  unfolding test_in_round
  test_in_round-Frame ind name n r m =
      Yields-then (λ o. Frame m o.manager) _
        (update_status_in_current_round w.is_up m name test_mode r) _
        (update_status-Frame w.is_up m name test_mode r)
        (λ o k. Yields-bind _ (get_msg_generator_of_sender_by_index o.manager ind) _ (λ generator.
          Yields-bind _ (get_interface_name_by_index o.manager ind) _ (λ own_name.
            Yields-bind _ (msg_generator_transfer o.manager generator own_name test_mode r w.unset)
              _
              (λ ret. Yields-if _ (ltb_ℤ ret.0 (pos 0)) _ _ k (
                Yields-then (λ q. Frame o.manager q.0) _
                  (send_packages w n 0 ind name ret.1 o.manager) _
                  (send_packages-Frame w n 0 ind name ret.1 o.manager)
                  (λ q l.
                    Yields-bind _
                      (choose_communication_info_operation_at_specified_interface q.0 ind) _
                      (λ op.
                        Yields-then (λ t. Frame q.0 t.0) _ (operate w op ind q.0) _
                          (operate-Frame op ind q.0)
                          (λ t u. Frame-trans m q.0 t.0 (Frame-trans m o.manager q.0 k l) u))))))))

  -- The entry of the interface holds a round that is not over at `now`.
  record Rests (name : Str) (now : ℤ) (s : Node) : Type 0 where
    pub round : ℤ
    pub at : at_index s.round_array (get_interface_index s.manager name) ≡ some round
    pub begun : eqb_ℤ round (pos 0) ≡ false
    pub not_over : ltb_ℤ round (current_round_at s.manager now) ≡ false

  resting :
      (s : Node) (now : ℤ) (name : Str) (n : ℕ)
      → Rests name now s
      → test_upon_one_interface_in_one_time w s now name n ≡ some (s, [])
  unfolding test_upon_one_interface_in_one_time
  resting s now name n r = rw (r.at, r.begun, r.not_over)

  module _ (s : Node) (name : Str) (now later : ℤ) where
    abbrev r : ℤ
    r = current_round_at s.manager now

    -- What a call that put the round leaves.
    put-Rests :
        (round : ℤ) (rounds : List ℤ) (m : Manager)
        → at_index s.round_array (get_interface_index s.manager name) ≡ some round
        → put_index s.round_array (get_interface_index s.manager name) r ≡ some rounds
        → Frame s.manager m
        → eqb_ℤ r (pos 0) ≡ false
        → ltb_ℤ r (current_round_at s.manager later) ≡ false
        → Rests name later (record s { round_array = some rounds; manager = m })
    put-Rests round rounds m at put k z l =
        let (xs, e, h) = at-put s.round_array (get_interface_index s.manager name) r round at in
        record {
          round = r;
          at = rw (get_interface_index-Frame s.manager m name k) (
              subst (λ ys. at_index (some ys) (get_interface_index s.manager name) ≡ some r)
                (some-injective _ _ (sym e ∙ put)) h);
          begun = z;
          not_over = rw (current_round_at-Frame s.manager m later k) l;
        }

    put_fails :
        (round : ℤ)
        → at_index s.round_array (get_interface_index s.manager name) ≡ some round
        → put_index s.round_array (get_interface_index s.manager name) r ≡ none
        → ⊥
    put_fails round a p =
        let (xs, e, h) = at-put s.round_array (get_interface_index s.manager name) r round a in
        none-ne-some xs (sym p ∙ e)

    leaves-Rests :
        (n : ℕ)
        → eqb_ℤ r (pos 0) ≡ false
        → ltb_ℤ r (current_round_at s.manager later) ≡ false
        → Yields (λ q. Rests name later q.0) (test_upon_one_interface_in_one_time w s now name n)
    unfolding test_upon_one_interface_in_one_time
    leaves-Rests n z l =
        let ind = get_interface_index s.manager name in
        elim (Option-cases (at_index s.round_array ind)) [
          | inl a ↦ rw a tt
          | inr (round, a) ↦ elim (Option-cases (put_index s.round_array ind r)) [
            | inl p ↦ absurd (put_fails round a p)
            | inr (rounds, p) ↦ elim (Bool-cases (eqb_ℤ round (pos 0))) [
              | inl e ↦ rw (a, e, p) (put-Rests round rounds s.manager a p (same s.manager) z l)
              | inr e ↦ elim (Bool-cases (ltb_ℤ round r)) [
                | inl b ↦
                    rw (a, e, b, p)
                      (Yields-then (λ q. Frame s.manager q.0) _
                        (test_in_round w ind name n r s.manager) _
                        (test_in_round-Frame ind name n r s.manager)
                        (λ q k. put-Rests round rounds q.0 a p k z l))
                | inr b ↦
                    rw (a, e, b)
                      (record { round = round; at = a; begun = e; not_over = ground (arith, l, b) })
              ]
            ]
          ]
        ]

    -- After a call in a round other than round 0, a further call for the same interface does nothing
    -- until that round is over: it returns the node unchanged, sends nothing and runs no command.
    pub test_once :
        (n n' : ℕ) (s' : Node) (es : List Event)
        → test_upon_one_interface_in_one_time w s now name n ≡ some (s', es)
        → eqb_ℤ (current_round_at s.manager now) (pos 0) ≡ false
        → ltb_ℤ (current_round_at s.manager now) (current_round_at s.manager later) ≡ false
        → test_upon_one_interface_in_one_time w s' later name n' ≡ some (s', [])
    test_once n n' s' es e z l = resting s' later name n' (rw e at (leaves-Rests n z l))
