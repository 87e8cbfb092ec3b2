-- ===== src/InfoManager/Newest.antt =====
-- src/base/info_manager.c: `parse_newest_communication_infos_to_json`, which takes the results that
-- are not yet synced in batches, from where the last batch ended.
pub mod Laws
pub mod Drain
use monitor_node.Prelude.{
  ℕ, suc, ◌+◌, ℤ, pos, negsuc, ltb_ℤ, eqb_ℤ, Str, Bool, true, false, ◌&&◌, List, [], ◌∷◌, ◌++◌,
  length, take, drop, ◌==◌, if◌then◌else◌,
}
use monitor_node.InfoManager.Types.{Manager, CommunicationInfo}
use monitor_node.InfoManager.Json.{Platform, entries}

-- `if_newest_flag < 0`: synced, and not changed since.
abbrev pub is_synced : CommunicationInfo → Bool
is_synced c = ltb_ℤ c.if_newest_flag (pos 0)

abbrev pub after_sync : ℤ → CommunicationInfo → CommunicationInfo
after_sync whether_used_for_sync c =
    if ltb_ℤ (pos 0) whether_used_for_sync then record c { if_newest_flag = negsuc 0 } else c

-- What the loop leaves: the results printed, the rest of the array, and the last index visited.
pub record Batch : Type 0 where
  pub taken : List CommunicationInfo
  pub left : List CommunicationInfo
  pub memoried : ℕ

abbrev keep : CommunicationInfo → Batch → Batch
keep c b = record b { left = c ∷ b.left }

abbrev emit : CommunicationInfo → CommunicationInfo → Batch → Batch
emit c c' b = record b { taken = c ∷ b.taken; left = c' ∷ b.left }

-- The loop from index `i`, over the results from there on; `cnt` results are printed already.
-- A result is printed as it was, since the flag is not part of its text.
unfoldable pub batch : ℤ → ℤ → ℕ → ℕ → ℕ → List CommunicationInfo → Batch
batch max sync memoried i cnt [] = record { taken = []; left = []; memoried = memoried }
batch max sync memoried i cnt (c ∷ cs) =
    let skip = keep c (batch max sync i (suc i) cnt cs) in
    let last : Batch = record { taken = c ∷ []; left = after_sync sync c ∷ cs; memoried = i } in
    let more = emit c (after_sync sync c) (batch max sync i (suc i) (suc cnt) cs) in
    if is_synced c
    then skip
    else if ltb_ℤ (pos 0) max && eqb_ℤ (pos (suc cnt)) max
    then last
    else more

-- The document's entries and the new state; `cJSON_Print` makes the text of the entries.
unfoldable pub next_batch : Manager → ℤ → ℤ → List CommunicationInfo × Manager
unfolding batch
next_batch m max sync =
    let b = batch max sync m.memoried m.memoried 0 (drop m.memoried m.communication_info_array) in
    (
      b.taken,
      record m {
        communication_info_array = take m.memoried m.communication_info_array ++ b.left;
        memoried = if b.memoried + 1 == length m.communication_info_array then 0 else b.memoried;
      },
    )

module _ (p : Platform) where
  unfoldable pub parse_newest_communication_infos_to_json : Manager → ℤ → ℤ → Str × Manager
  parse_newest_communication_infos_to_json m max sync =
      let (taken, m') = next_batch m max sync in (p.cjson_print (entries p taken), m')
