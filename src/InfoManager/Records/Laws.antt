-- ===== src/InfoManager/Records/Laws.antt =====
-- How a listener's update reads back.
use monitor_node.Prelude.{
  ℕ, ◌≡◌, refl, ◌⊎◌, inl, inr, ℤ, error, success, Str, strcmp_eq, strcmp_eq-eq, strcmp_eq_refl,
  none, some, List, [], ◌∷◌, length, arith, Option-cases, if◌then◌else◌,
}
use monitor_node.InfoManager.Types.{Manager, CommunicationInfo}
use monitor_node.InfoManager.Records.{
  find_record, with_record, refreshed, update_communication_info_array,
}

module _ (name : Str) (g : CommunicationInfo → CommunicationInfo) where
  -- The array with the first result of the name changed, if there is one.
  pub rerecord : List CommunicationInfo → List CommunicationInfo
  rerecord [] = []
  rerecord (c ∷ cs) =
      let rest = rerecord cs in if strcmp_eq c.interface_name name then g c ∷ cs else c ∷ rest

  pub with_record-rerecord :
      (cs : List CommunicationInfo)
      → with_record name g cs
        ≡ elim (find_record name cs) [ none ↦ none | some c ↦ some (rerecord cs) ]
  unfolding with_record rerecord find_record
  with_record-rerecord [] = refl
  with_record-rerecord (c ∷ cs) = ground (arith, with_record-rerecord cs)

  pub length-rerecord : (cs : List CommunicationInfo) → length (rerecord cs) ≡ length cs
  unfolding rerecord
  length-rerecord [] = refl
  length-rerecord (c ∷ cs) = ground (arith, length-rerecord cs)

  -- Reading back, when the change keeps the name.
  pub find_record-rerecord :
      ((c : CommunicationInfo) → (g c).interface_name ≡ c.interface_name)
      → (other : Str) (cs : List CommunicationInfo)
      → find_record other (rerecord cs) ≡ (
          if strcmp_eq name other
          then elim (find_record name cs) [ none ↦ none | some c ↦ some (g c) ]
          else find_record other cs)
  unfolding rerecord find_record
  find_record-rerecord keep other [] = ground arith
  find_record-rerecord keep other (c ∷ cs) = ground (
    arith,
    keep c,
    find_record-rerecord keep other cs,
    strcmp_eq-eq c.interface_name name,
    strcmp_eq-eq c.interface_name other,
    strcmp_eq-eq name other,
    strcmp_eq_refl name,
  )

update_cases :
    (m : Manager) (node name : Str) (time : ℤ) (tx rx : ℕ) (round : ℤ)
    → update_communication_info_array m node name time tx rx round
      ≡ elim (find_record name m.communication_info_array) [
        | none ↦ (error, m)
        | some c ↦ (
          success,
          record m {
            communication_info_array =
                rerecord name (refreshed node time tx rx round) m.communication_info_array;
          },
        )
      ]
unfolding update_communication_info_array
update_cases m node name time tx rx round =
    ground (
      arith,
      with_record-rerecord name (refreshed node time tx rx round) m.communication_info_array,
    )

-- An update of a known interface succeeds: its result holds the new values and is marked as not yet
-- synced, all other results read as before, and none is added. For an unknown interface the code
-- is -1 and nothing changes.
pub find_record-update :
    (m : Manager) (node name other : Str) (time : ℤ) (tx rx : ℕ) (round : ℤ)
    → let r = update_communication_info_array m node name time tx rx round in
      ((find_record name m.communication_info_array ≡ none) × (r ≡ (error, m)))
      ⊎ ((c : CommunicationInfo) × (find_record name m.communication_info_array ≡ some c)
          × (r.0 ≡ success)
          × (length r.1.communication_info_array ≡ length m.communication_info_array)
          × (find_record other r.1.communication_info_array ≡ (
              if strcmp_eq name other
              then some (refreshed node time tx rx round c)
              else find_record other m.communication_info_array)))
find_record-update m node name other time tx rx round =
    let g = refreshed node time tx rx round in
    let cs = m.communication_info_array in
    elim (Option-cases (find_record name cs)) [
      | inl e ↦ inl (e, rw (update_cases, e))
      | inr (c, e) ↦
          let r = find_record-rerecord name g (λ d. refl) other cs in
          inr (
            c,
            e,
            rw (update_cases, e),
            rw (update_cases, e) (length-rerecord name g cs),
            rw (update_cases, e) (rw e at r),
          )
    ]
