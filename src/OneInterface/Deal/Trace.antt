-- ===== src/OneInterface/Deal/Trace.antt =====
-- A listener of src/one_interface_operator.c over a sequence of test messages.
use monitor_node.Prelude.{
  ◌≡◌, ◌≤◌, length, int_max, inl, refl, sym, subst, ◌∙◌, ap, ℤ, pos, success, Str, strcmp_eq_refl,
  Option, none, some, List, [], ◌∷◌, ◌++◌, map, All, ◌>>=◌, ◌<ℤ◌,
}
use monitor_node.InfoManager.{Manager, InterfaceInfo, CommunicationInfo}
use monitor_node.InfoManager.Interfaces.{get_interface_index, interface_at}
use monitor_node.InfoManager.Records.{find_record}
use monitor_node.InfoManager.Json.{Platform}
use monitor_node.MsgGenerator.{
  msg_generator_transfer, generate_fpu_can_test_msg, generate_gpu_can_test_msg,
}
use monitor_node.OneInterface.State.{Node, mutex_at, current_round_at}
use monitor_node.OneInterface.Deal.{count_message, deal_with_mnt}
use monitor_node.OneInterface.Deal.Counting.{
  Count, count_step, add_report, counts, run_lengths, Ascending, counts-run_lengths,
}
use monitor_node.OneInterface.Deal.Step.{Shows, stored, HasRoom, HasRoom-step, count_message_lem}
use monitor_node.OneInterface.Deal.Results.{
  Arrival, over, stored-over, Known, HoldsReport, stored-holds, Recorded, mutex-same,
}

module _ (p : Platform) (unset : Str) (m : Manager) (node name : Str) (f : InterfaceInfo) where
  abbrev ind : ℤ
  ind = get_interface_index m name

  -- The message is the one that this interface expects at the time.
  abbrev pub IsExpected : Arrival → Type 0
  IsExpected a =
      msg_generator_transfer m f.msg_generator_of_sender f.linked_interface_name f.mode
        (current_round_at m a.now) unset
      ≡ some (success, a.msg)

  index-over : (cs : List CommunicationInfo) → get_interface_index (over m cs) name ≡ ind
  unfolding get_interface_index
  index-over cs = refl

  round-over :
      (cs : List CommunicationInfo) (now : ℤ)
      → current_round_at (over m cs) now ≡ current_round_at m now
  unfolding current_round_at
  round-over cs now = refl

  expected-over :
      (cs : List CommunicationInfo) (a : Arrival)
      → IsExpected a
      → msg_generator_transfer
          (over m cs)
          f.msg_generator_of_sender
          f.linked_interface_name
          f.mode
          (current_round_at m a.now)
          unset
        ≡ some (success, a.msg)
  unfolding msg_generator_transfer generate_fpu_can_test_msg generate_gpu_can_test_msg
      get_interface_index
  expected-over cs a e = e

  deal-count :
      (s : Node) (cs : List CommunicationInfo) (a : Arrival)
      → interface_at m ind ≡ some f
      → s.manager ≡ over m cs
      → mutex_at s ind ≡ some tt
      → IsExpected a
      → deal_with_mnt p unset s a.now a.later node name a.msg
        ≡ count_message s ind node name a.later (current_round_at m a.now)
  unfolding deal_with_mnt
  deal-count s cs a at o lock e =
      rw (o, index-over cs, round-over cs a.now, lock, at, expected-over cs a e, strcmp_eq_refl)

  -- The function is called for each arrival in turn.
  pub deal_all : Node → List Arrival → Option Node
  deal_all s [] = some s
  deal_all s (a ∷ l) = deal_with_mnt p unset s a.now a.later node name a.msg >>= λ t. deal_all t l

  -- What one arrival does to the results.
  abbrev Noted : Option Count → List CommunicationInfo → List CommunicationInfo → Type 0
  Noted none cs ds = find_record name ds ≡ find_record name cs
  Noted (some d) cs ds = HoldsReport name d ds

  Noted-Known :
      (o : Option Count) (cs ds : List CommunicationInfo)
      → Known name cs
      → Noted o cs ds
      → Known name ds
  Noted-Known none cs ds (c, k) e = (c, e ∙ k)
  Noted-Known (some d) cs ds k n = (n.0, n.1)

  Recorded-later :
      (d : Count) (l : List Count) (cs ds es : List CommunicationInfo)
      → Recorded name (d ∷ l) ds es
      → Recorded name (d ∷ l) cs es
  Recorded-later d [] cs ds es r = r
  Recorded-later d (e ∷ l) cs ds es r = Recorded-later e l cs ds es r

  Recorded-add :
      (o : Option Count) (l : List Count) (cs ds es : List CommunicationInfo)
      → Noted o cs ds
      → Recorded name l ds es
      → Recorded name (add_report o l) cs es
  Recorded-add none [] cs ds es n r = r ∙ n
  Recorded-add none (d ∷ l) cs ds es n r = Recorded-later d l cs ds es r
  Recorded-add (some d) [] cs ds es (c, h, q1, q2, q3, q4) r = (c, r ∙ h, q1, q2, q3, q4)
  Recorded-add (some d) (e ∷ l) cs ds es n r = Recorded-later e l cs ds es r

  add_report-++ :
      (o : Option Count) (l r : List Count) → add_report o (l ++ r) ≡ add_report o l ++ r
  add_report-++ none l r = refl
  add_report-++ (some c) l r = refl

  noted :
      (o : Option Count) (later : ℤ) (cs : List CommunicationInfo)
      → Known name cs
      → (ds : List CommunicationInfo) × (stored node name later o (over m cs) ≡ over m ds)
        × Noted o cs ds
  noted none later cs k = (cs, refl, refl)
  noted (some d) later cs k =
      let (ds, e) = stored-over node name later (some d) m cs in
      (
        ds,
        e,
        subst (λ q. HoldsReport name d q.communication_info_array) e
            (stored-holds node name later d (over m cs) k),
      )

  -- What holds after the arrivals, when the counter stood at `c` and the results were `cs` before.
  abbrev Dealt : Count → List CommunicationInfo → List Arrival → Option Node → Type 0
  Dealt c cs l o =
      (s : Node) × (ds : List CommunicationInfo) × (reports : List Count) × (last : Count) × (o
        ≡ some s)
      × (s.manager ≡ over m ds)
      × Shows s ind last
      × (counts c (map (λ a. current_round_at m a.now) l) ≡ reports ++ last ∷ [])
      × Recorded name reports cs ds

  deal_all-counts :
      (l : List Arrival) (s : Node) (cs : List CommunicationInfo) (c : Count)
      → interface_at m ind ≡ some f
      → s.manager ≡ over m cs
      → mutex_at s ind ≡ some tt
      → All IsExpected l
      → Shows s ind c
      → HasRoom c (length l)
      → Known name cs
      → Dealt c cs l (deal_all s l)
  unfolding deal_all counts
  deal_all-counts [] s cs c at e lock ex h room k = (s, cs, [], c, refl, e, h, refl, refl)
  deal_all-counts (a ∷ l) s cs c at e lock (x, ex) h room k =
      let o = (count_step c (current_round_at m a.now)).1 in
      let (t, run, shows, st, same) =
        count_message_lem s ind node name a.later (current_round_at m a.now) c (length l) h room in
      let (ds, over_ds, n) = noted o a.later cs k in
      let (s', es, reports, last, run', st', shows', counted, rec) =
        deal_all-counts l t ds (count_step c (current_round_at m a.now)).0 at
          (st ∙ ap (stored node name a.later o) e ∙ over_ds) (mutex-same s t ind same lock) ex shows
          (HasRoom-step c (current_round_at m a.now) (length l) room) (Noted-Known o cs ds k n) in
      (
        s',
        es,
        add_report o reports,
        last,
        rw (deal-count s cs a at e lock x, run) run',
        st',
        shows',
        ap (add_report o) counted ∙ add_report-++ o reports (last ∷ []),
        Recorded-add o reports cs ds es n rec,
      )

  -- A listener that is in the table and has its mutex, whose count has not begun, and whose
  -- interface has a result, is given one or more expected messages, `INT_MAX` at most; that they are
  -- expected means that the generator made them without writing outside of the local buffer. The
  -- rounds are positive and do not decrease. Then no call faults. The counts that it reports, with the one it still holds, are the
  -- numbers of messages in each round, in order. Under its name the results then hold the last
  -- report, or what they held before if there is none, and nothing but the results changes in the
  -- manager.
  pub deal_all-run_lengths :
      (s : Node) (c : Count) (a : Arrival) (l : List Arrival)
      → interface_at m ind ≡ some f
      → s.manager ≡ m
      → mutex_at s ind ≡ some tt
      → Shows s ind c
      → c.round ≡ pos 0
      → length (a ∷ l) ≤ int_max
      → Known name m.communication_info_array
      → All IsExpected (a ∷ l)
      → pos 0 <ℤ current_round_at m a.now
      → Ascending (current_round_at m a.now) (map (λ b. current_round_at m b.now) l)
      → (s' : Node) × (ds : List CommunicationInfo) × (reports : List Count) × (last : Count)
        × (deal_all s (a ∷ l) ≡ some s')
        × (s'.manager ≡ over m ds)
        × Shows s' ind last
        × (reports ++ last ∷ [] ≡ run_lengths (map (λ b. current_round_at m b.now) (a ∷ l)))
        × Recorded name reports m.communication_info_array ds
  deal_all-run_lengths s c a l at e lock h z few k ex first asc =
      let (s', ds, reports, last, run, st, shows, counted, rec) =
        deal_all-counts (a ∷ l) s m.communication_info_array c at e lock ex h (few, inl z) k in
      (
        s',
        ds,
        reports,
        last,
        run,
        st,
        shows,
        sym counted
            ∙ counts-run_lengths c (current_round_at m a.now)
                (map (λ b. current_round_at m b.now) l) z first asc,
        rec,
      )
