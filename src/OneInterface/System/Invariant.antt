-- ===== src/OneInterface/System/Invariant.antt =====
-- What holds of a node whatever its threads do, in whatever order.
use monitor_node.Prelude.{
  ℕ, suc, ◌≡◌, refl, subst, inl, inr, ℤ, pos, ltb_ℤ, ltb, int_max, eqb_ℤ, Str, strcmp_eq, Bool,
  true, Option, none, some, List, [], ◌∷◌, ◌++◌, All, ◌>>=◌, Option-cases, Yields, Yields-bind,
  Yields-then, Yields-if,
}
use monitor_node.InfoManager.{Manager}
use monitor_node.InfoManager.Interfaces.{
  get_interface_index, set_last_work_time, get_msg_generator_of_sender_by_index,
  get_linked_interface_name_by_index, get_interface_mode_by_index,
}
use monitor_node.InfoManager.Records.{with_record, refreshed, update_communication_info_array}
use monitor_node.InfoManager.Json.{Platform, Json, not_array, array}
use monitor_node.InfoManager.Sync.{
  merge_entries, update_from_document, update_communication_info_array_from_json,
}
use monitor_node.MsgGenerator.{msg_generator_transfer}
use monitor_node.StatusChooser.{listen_mode}
use monitor_node.Firmware.Receive.{DealData, Received, Line, receive_message, deal_async}
use monitor_node.Firmware.Receive.Laws.{HandsOver, data_of, receive_message-HandsOver}
use monitor_node.OneInterface.State.{
  Node, at_index, put_index, mutex_at, packages_num_one_time, current_round_at,
  max_waiting_time_in_one_round,
}
use monitor_node.OneInterface.Choose.{update_status_in_current_round}
use monitor_node.OneInterface.Deal.{count_message, deal_with_mnt}
use monitor_node.OneInterface.Round.{World, test_in_round, test_upon_one_interface_in_one_time}
use monitor_node.OneInterface.Round.Frame.{
  Frame, same, Frame-trans, set_last_work_time-Frame, update_status-Frame,
}
use monitor_node.OneInterface.Round.Once.{test_in_round-Frame}
use monitor_node.OneInterface.Listen.{Heard, listen_upon_one_interface_in_one_time}
use monitor_node.OneInterface.System.{
  System, handed_over, Step, tested, listened, dealt, Reach, start, then_,
}

-- A node after a call.
abbrev pub KeepsFrame : Node → Node → Type 0
KeepsFrame s s1 = Frame s.manager s1.manager

Yields-some : {A : Type 0} (P : A → Type 0) (o : Option A) (a : A) → Yields P o → o ≡ some a → P a
Yields-some P o a y e = subst (Yields P) e y

test-Frame :
    (w : World) (s : Node) (now : ℤ) (name : Str) (n : ℕ)
    → Yields (λ r. KeepsFrame s r.0) (test_upon_one_interface_in_one_time w s now name n)
unfolding test_upon_one_interface_in_one_time
test-Frame w s now name n =
    let ind = get_interface_index s.manager name in
    let r = current_round_at s.manager now in
    Yields-bind _ (at_index s.round_array ind) _ (λ round.
      Yields-if _ (eqb_ℤ round (pos 0)) _ _
        (Yields-bind _ (put_index s.round_array ind r) _ (λ rounds. same s.manager))
        (Yields-if _ (ltb_ℤ round r) _ _
          (Yields-bind _ (put_index s.round_array ind r) _ (λ rounds.
            Yields-then (λ q. Frame s.manager q.0) _ (test_in_round w ind name n r s.manager) _
              (test_in_round-Frame w ind name n r s.manager) (λ q k. k)))
          (same s.manager)))

update-Frame :
    (m : Manager) (node name : Str) (t : ℤ) (tx rx : ℕ) (r : ℤ)
    → Frame m (update_communication_info_array m node name t tx rx r).1
unfolding update_communication_info_array
update-Frame m node name t tx rx r =
    elim (Option-cases (with_record name (refreshed node t tx rx r) m.communication_info_array)) [
      | inl e ↦ rw (update_communication_info_array, e) (same m)
      | inr (cs, e) ↦
          rw (update_communication_info_array, e)
            (record { named = refl; begun = refl; valid = λ v. v })
    ]

count-Frame :
    (s : Node) (ind : ℤ) (node name : Str) (later r : ℤ)
    → Yields (KeepsFrame s) (count_message s ind node name later r)
unfolding count_message
count-Frame s ind node name later r = Yields-bind _ (at_index s.cnt_array ind) _ (λ cnt.
    Yields-bind _ (at_index s.round_array ind) _ (λ round.
      let again = λ (m : Manager) (k : Frame s.manager m).
        Yields-bind (KeepsFrame s) (put_index s.cnt_array ind 1)
          (λ cnts. put_index s.round_array ind r >>= λ rounds.
            some (record s { manager = m; cnt_array = some cnts; round_array = some rounds }))
          (λ cnts. Yields-bind _ (put_index s.round_array ind r) _ (λ rounds. k)) in
      Yields-if _ (eqb_ℤ round (pos 0)) _ _ (again s.manager (same s.manager)) (
        Yields-if _ (ltb_ℤ round r) _ _
          (again _ (update-Frame s.manager node name later packages_num_one_time cnt round))
          (Yields-if _ (ltb cnt int_max) _ _
            (Yields-bind _ (put_index s.cnt_array ind (suc cnt)) _ (λ cnts. same s.manager)) tt))))

document-Frame :
    (p : Platform) (m : Manager) (j : Option Json)
    → Yields (λ r. Frame m r.1) (update_from_document p j m)
unfolding update_from_document
document-Frame p m none = same m
document-Frame p m (some not_array) = same m
document-Frame p m (some (array es)) =
    Yields-bind _ (merge_entries p es m.communication_info_array) _
      (λ cs. record { named = refl; begun = refl; valid = λ v. v })

deal-Frame :
    (p : Platform) (unset : Str) (s : Node) (now later : ℤ) (ln name msg : Str)
    → Yields (KeepsFrame s) (deal_with_mnt p unset s now later ln name msg)
unfolding deal_with_mnt update_communication_info_array_from_json
deal-Frame p unset s now later ln name msg =
    let m = s.manager in
    let ind = get_interface_index m name in
    let r = current_round_at m now in
    Yields-bind _ (mutex_at s ind) _ (λ u.
      Yields-bind _ (get_msg_generator_of_sender_by_index m ind) _ (λ generator.
        Yields-bind _ (get_linked_interface_name_by_index m ind) _ (λ linked.
          Yields-bind _ (get_interface_mode_by_index m ind) _ (λ mode.
            Yields-bind _ (msg_generator_transfer m generator linked mode r unset) _ (λ ret.
              Yields-if _ (ltb_ℤ ret.0 (pos 0)) _ _ (same m) (
                Yields-if _ (strcmp_eq msg ret.1) _ _ (count-Frame s ind ln name later r) (
                  Yields-then (λ q. Frame m q.1) _ (update_from_document p (p.cjson_parse msg) m) _
                    (document-Frame p m (p.cjson_parse msg)) (λ q k. k))))))))

-- A message that a thread was given is complete.
abbrev pub Complete : DealData → Type 0
Complete d = (ln : Str) × (name : Str) × (msg : Str) × (d ≡ data_of ln name msg)

-- What holds after a call of the listener.
abbrev pub KeepsHeard : Node → Heard → Type 0
KeepsHeard s h = KeepsFrame s h.node × All Complete (handed_over h.received.handed)

handed_over-Complete :
    (l : Line) (m : Manager) (ln name : Str) (wait : ℤ) (r : Received)
    → HandsOver l m ln name wait r
    → All Complete (handed_over r.handed)
handed_over-Complete l m ln name wait r (inl (e, _, _)) = rw e tt
handed_over-Complete l m ln name wait r (inr (inl (e, _, _))) = rw e tt
handed_over-Complete l m ln name wait r (inr (inr (_, (c, msg, _, (_, e))))) =
    rw e ((ln, name, msg, refl), tt)

listen-Frame :
    (is_up : Str → Bool) (l : Line) (s : Node) (now : ℤ) (ln name : Str)
    → Yields (KeepsHeard s) (listen_upon_one_interface_in_one_time is_up l s now ln name)
unfolding listen_upon_one_interface_in_one_time
listen-Frame is_up l s now ln name =
    let r = current_round_at s.manager now in
    Yields-then (λ o. Frame s.manager o.manager) _
      (update_status_in_current_round is_up s.manager name listen_mode r) _
      (update_status-Frame is_up s.manager name listen_mode r)
      (λ o k.
        Yields-then (Frame o.manager) _
          (set_last_work_time o.manager (get_interface_index o.manager name) now) _
          (set_last_work_time-Frame o.manager (get_interface_index o.manager name) now)
          (λ m1 k1.
            Yields-then (HandsOver l m1 ln name (pos max_waiting_time_in_one_round)) _
              (receive_message l m1 (some ln) (some name) (pos max_waiting_time_in_one_round)) _
              (receive_message-HandsOver l m1 ln name (pos max_waiting_time_in_one_round))
              (λ g h. (
                Frame-trans _ _ _ k k1,
                handed_over-Complete l m1 ln name (pos max_waiting_time_in_one_round) g h,
              ))))

All-append : {A : Type 0} (P : A → Type 0) (xs ys : List A) → All P xs → All P ys → All P (xs ++ ys)
All-append P [] ys a b = b
All-append P (x ∷ xs) ys (a, as_) b = (a, All-append P xs ys as_ b)

All-drop :
    {A : Type 0} (P : A → Type 0) (xs ys : List A) (x : A)
    → All P (xs ++ x ∷ ys)
    → P x × All P (xs ++ ys)
All-drop P [] ys x a = a
All-drop P (z ∷ xs) ys x (a, as_) = let (b, c) = All-drop P xs ys x as_ in (b, (a, c))

dealt-Frame :
    (p : Platform) (unset : Str) (s : Node) (now later : ℤ) (d : DealData)
    → Complete d
    → Yields
        (λ r. KeepsFrame s r.0 × (r.1 ≡ true))
        (deal_async (λ ln li msg t. deal_with_mnt p unset t now later ln li msg) d s)
unfolding deal_async
dealt-Frame p unset s now later d (ln, name, msg, e) = rw e (
    Yields-then (KeepsFrame s) _ (deal_with_mnt p unset s now later ln name msg) _
      (deal-Frame p unset s now later ln name msg) (λ s1 k. (k, refl)))

-- What holds between two states of a node.
pub record Sound (s t : System) : Type 0 where
  pub frame : KeepsFrame s.node t.node
  pub complete : All Complete t.pending

Step-Sound : (s t : System) → Step s t → All Complete s.pending → Sound s t
Step-Sound _ _ (tested w s s1 q now name n es e) a = record {
  frame = Yields-some _ _ _ (test-Frame w s now name n) e;
  complete = a;
}
Step-Sound _ _ (listened is_up l s q now ln name h e) a =
    let (k, c) = Yields-some (KeepsHeard s) _ h (listen-Frame is_up l s now ln name) e in
    record { frame = k; complete = All-append Complete q _ a c }
Step-Sound _ _ (dealt p unset s s1 before after d now later freed e) a =
    let (c, cs) = All-drop Complete before after d a in
    record {
      frame =
          (Yields-some (λ r. KeepsFrame s r.0 × (r.1 ≡ true)) _ (s1, freed)
            (dealt-Frame p unset s now later d c) e).0;
      complete = cs;
    }

-- However the calls of the testers, the listeners and the threads that deal with messages follow each
-- other, as long as none faults, the node keeps its interfaces, by name and order, and the start of
-- the test, its statuses stay valid ones when they were at the start, and no thread is given a
-- message without the names of the linked node and the interface, when none was at the start.
pub Reach-Sound : (s t : System) → Reach s t → All Complete s.pending → Sound s t
Reach-Sound _ _ (start s) a = record { frame = same s.node.manager; complete = a }
Reach-Sound _ _ (then_ s t u r st) a =
    let before = Reach-Sound s t r a in
    let now = Step-Sound t u st before.complete in
    record { frame = Frame-trans _ _ _ before.frame now.frame; complete = now.complete }
