-- ===== src/InfoManager/File/Laws.antt =====
-- What is pending after the results file was written.
use monitor_node.Prelude.{
  ℕ, zero, suc, ◌<◌, ◌≡◌, refl, ◌∙◌, ap, ◌⊎◌, inl, inr, pos, true, false, List, [], ◌∷◌, ◌&&◌, map,
  take, drop, arith, if◌then◌else◌, Bool-cases,
}
use monitor_node.InfoManager.Types.{Manager, CommunicationInfo}
use monitor_node.InfoManager.Json.{Platform, parse_communication_info_array_to_json}
use monitor_node.InfoManager.Newest.{next_batch}
use monitor_node.InfoManager.Newest.Laws.{pending, unflag, next_batch_lem}
use monitor_node.InfoManager.File.{
  Disk, untouched, holds, mark_written, contents, write_communication_info_array_to_json,
}

pending-mark_written :
    (n : ℕ) (cs : List CommunicationInfo) → pending (drop n (map mark_written cs)) ≡ []
pending-mark_written zero [] = refl
pending-mark_written (suc n) [] = refl
pending-mark_written zero (c ∷ cs) = pending-mark_written zero cs
pending-mark_written (suc n) (c ∷ cs) = pending-mark_written n cs

map-unflag-mark_written :
    (cs : List CommunicationInfo) → map unflag (map mark_written cs) ≡ map unflag cs
map-unflag-mark_written [] = refl
map-unflag-mark_written (c ∷ cs) = ap (λ t. unflag c ∷ t) (map-unflag-mark_written cs)

-- The next batch of marked results is empty.
marked_batch :
    (m : Manager) (max : ℕ) (cs : List CommunicationInfo)
    → 0 < max
    → (next_batch (record m { communication_info_array = map mark_written cs }) (pos max) (pos 1)).0
      ≡ []
marked_batch m zero cs h = absurd (omega arith)
marked_batch m (suc n) cs h =
    (next_batch_lem (record m { communication_info_array = map mark_written cs }) (suc n) h).0
    ∙ ap (take (suc n)) (pending-mark_written m.memoried cs)

-- When the results file is opened and locked, it then holds the text of all results as far as it was
-- written, and no result is pending any more: the next batch for syncing, of any size `max > 0`, is
-- empty. This is so even if nothing could be written. If the file cannot be locked it is left empty,
-- and otherwise untouched, and the manager does not change. The results keep all but their flags.
pub write_communication_info_array_to_json_lem :
    (p : Platform) (d : Disk) (m : Manager) (max : ℕ)
    → 0 < max
    → let (file, m') = write_communication_info_array_to_json p d m in
      (((d.opens && d.locks ≡ true)
          × (file ≡ holds (contents d.writes (parse_communication_info_array_to_json p m)))
          × (pending m'.communication_info_array ≡ [])
          × ((next_batch m' (pos max) (pos 1)).0 ≡ []))
        ⊎ ((d.opens && d.locks ≡ false)
            × (file ≡ (if d.opens then holds [] else untouched))
            × (m' ≡ m)))
      × (map unflag m'.communication_info_array ≡ map unflag m.communication_info_array)
unfolding write_communication_info_array_to_json
write_communication_info_array_to_json_lem p d m max h = elim (Bool-cases d.opens) [
  | inr o ↦ rw o (inr (refl, refl, refl), refl)
  | inl o ↦ elim (Bool-cases d.locks) [
    | inr l ↦ rw (o, l) (inr (refl, refl, refl), refl)
    | inl l ↦
        rw (o, l)
          (
            inl (
              refl,
              refl,
              pending-mark_written 0 m.communication_info_array,
              marked_batch m max m.communication_info_array h,
            ),
            map-unflag-mark_written m.communication_info_array,
          )
  ]
]
