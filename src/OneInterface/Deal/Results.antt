-- ===== src/OneInterface/Deal/Results.antt =====
-- src/one_interface_operator.c: what the reports of a listener leave in the table of results.
use monitor_node.Prelude.{
  ◌≡◌, refl, sym, ◌∙◌, inl, inr, ℤ, pos, negsuc, Str, strcmp_eq_refl, Option, none, some, List, [],
  ◌∷◌, arith, Option-cases,
}
use mathlib.Core.Option.{none-ne-some}
use monitor_node.InfoManager.{Manager, CommunicationInfo}
use monitor_node.InfoManager.Records.{
  find_record, refreshed, with_record, update_communication_info_array,
}
use monitor_node.InfoManager.Records.Laws.{find_record-update}
use monitor_node.MsgGenerator.{}
use monitor_node.OneInterface.State.{Node, mutex_at, packages_num_one_time}
use monitor_node.OneInterface.Deal.Counting.{Count}
use monitor_node.OneInterface.Deal.Step.{stored}

-- A message, and the two readings of the clock while it is dealt with.
pub record Arrival : Type 0 where
  pub now : ℤ
  pub later : ℤ
  pub msg : Str

-- The results of a manager are those of the setup `m`, but for the array.
abbrev pub over : Manager → List CommunicationInfo → Manager
over m cs = record m { communication_info_array = cs }

pub stored-over :
    (node name : Str) (later : ℤ) (o : Option Count) (m : Manager) (cs : List CommunicationInfo)
    → (ds : List CommunicationInfo) × (stored node name later o (over m cs) ≡ over m ds)
unfolding update_communication_info_array
stored-over node name later none m cs = (cs, refl)
stored-over node name later (some c) m cs =
    elim (Option-cases
      (with_record name (refreshed node later packages_num_one_time c.hits c.round) cs)) [
        | inl e ↦ (cs, ground (arith, e))
        | inr (ds, e) ↦ (ds, ground (arith, e))
      ]

-- The name has a result.
abbrev pub Known : Str → List CommunicationInfo → Type 0
Known name cs = (c : CommunicationInfo) × (find_record name cs ≡ some c)

-- The result under the name is that of the count: not yet synced, with 20 packages sent.
abbrev pub HoldsReport : Str → Count → List CommunicationInfo → Type 0
HoldsReport name d cs =
    (c : CommunicationInfo) × (find_record name cs ≡ some c)
    × (c.tx ≡ packages_num_one_time)
    × (c.rx ≡ d.hits)
    × (c.current_round ≡ d.round)
    × (c.if_newest_flag ≡ pos 1)

pub stored-holds :
    (node name : Str) (later : ℤ) (d : Count) (m : Manager)
    → Known name m.communication_info_array
    → HoldsReport name d (stored node name later (some d) m).communication_info_array
stored-holds node name later d m (c, k) =
    elim (find_record-update m node name name later packages_num_one_time d.hits d.round) [
      | inl (e, _) ↦ absurd (none-ne-some c (sym e ∙ k))
      | inr (c', _, _, _, e) ↦ (
        refreshed node later packages_num_one_time d.hits d.round c',
        rw strcmp_eq_refl at e,
        refl,
        refl,
        refl,
        refl,
      )
    ]

-- After the reports, the name holds the last one, or what it held before if there is none.
abbrev pub Recorded : Str → List Count → List CommunicationInfo → List CommunicationInfo → Type 0
Recorded name [] cs ds = find_record name ds ≡ find_record name cs
Recorded name (d ∷ []) cs ds = HoldsReport name d ds
Recorded name (d ∷ e ∷ l) cs ds = Recorded name (e ∷ l) cs ds

pub mutex-same :
    (s t : Node) (i : ℤ)
    → t.cnt_mutex_array ≡ s.cnt_mutex_array
    → mutex_at s i ≡ some tt
    → mutex_at t i ≡ some tt
mutex-same s t (pos i) e h = rw e h
mutex-same s t (negsuc i) e h = h
