-- ===== src/InfoManager/Newest/Laws.antt =====
-- A batch against its specification: the first results that are pending, in order.
use monitor_node.Prelude.{
  ℕ, zero, suc, ◌+◌, ◌<◌, ◌≡◌, refl, ap, pos, List, [], ◌∷◌, ◌++◌, map, length, take, drop, arith,
  if◌then◌else◌,
}
use monitor_node.InfoManager.Types.{Manager, CommunicationInfo}
use monitor_node.InfoManager.Newest.{is_synced, after_sync, batch, next_batch}

-- The results that are not yet synced.
abbrev pub pending : List CommunicationInfo → List CommunicationInfo
pending [] = []
pending (c ∷ cs) = if is_synced c then pending cs else c ∷ pending cs

-- A result without its flag.
abbrev pub unflag : CommunicationInfo → CommunicationInfo
unflag c = record c { if_newest_flag = pos 0 }

-- `after_sync 1` marks as synced.
abbrev marked : CommunicationInfo → CommunicationInfo
marked = after_sync (pos 1)

module _ (max : ℕ) where
  -- With `room + 1` places left the batch takes that many pending results.
  taken-batch :
      (memoried i cnt room : ℕ) (cs : List CommunicationInfo)
      → cnt + suc room ≡ max
      → (batch (pos max) (pos 1) memoried i cnt cs).taken ≡ take (suc room) (pending cs)
  unfolding batch
  taken-batch memoried i cnt room [] h = refl
  taken-batch memoried i cnt zero (c ∷ cs) h = ground (arith, taken-batch i (suc i) cnt zero cs h)
  taken-batch memoried i cnt (suc room) (c ∷ cs) h = ground (
    arith,
    taken-batch i (suc i) cnt (suc room) cs h,
    taken-batch i (suc i) (suc cnt) room cs (omega arith),
  )

  unflag-batch :
      (memoried i cnt : ℕ) (cs : List CommunicationInfo)
      → map unflag (batch (pos max) (pos 1) memoried i cnt cs).left ≡ map unflag cs
  unfolding batch
  unflag-batch memoried i cnt [] = refl
  unflag-batch memoried i cnt (c ∷ cs) =
      ground (arith, unflag-batch i (suc i) cnt cs, unflag-batch i (suc i) (suc cnt) cs)

  pending-batch :
      (memoried i cnt : ℕ) (cs : List CommunicationInfo)
      → let b = batch (pos max) (pos 1) memoried i cnt cs in
        length (pending b.left) + length b.taken ≡ length (pending cs)
  unfolding batch
  pending-batch memoried i cnt [] = omega arith
  pending-batch memoried i cnt (c ∷ cs) =
      ground (arith, pending-batch i (suc i) cnt cs, pending-batch i (suc i) (suc cnt) cs)

  pub memoried-batch :
      (memoried i cnt : ℕ) (cs : List CommunicationInfo)
      → 0 < length cs
      → (batch (pos max) (pos 1) memoried i cnt cs).memoried < i + length cs
  unfolding batch
  memoried-batch memoried i cnt [] h = absurd (omega arith)
  memoried-batch memoried i cnt (c ∷ []) h = ground arith
  memoried-batch memoried i cnt (c ∷ d ∷ cs) h = ground (
    arith,
    memoried-batch i (suc i) cnt (d ∷ cs) (omega arith),
    memoried-batch i (suc i) (suc cnt) (d ∷ cs) (omega arith),
  )

  -- A batch that finds nothing goes to the end.
  pub memoried-batch_empty :
      (memoried i cnt : ℕ) (cs : List CommunicationInfo)
      → 0 < length cs
      → length (batch (pos max) (pos 1) memoried i cnt cs).taken ≡ 0
      → (batch (pos max) (pos 1) memoried i cnt cs).memoried + 1 ≡ i + length cs
  unfolding batch
  memoried-batch_empty memoried i cnt [] h e = absurd (omega arith)
  memoried-batch_empty memoried i cnt (c ∷ []) h e = ground arith
  memoried-batch_empty memoried i cnt (c ∷ d ∷ cs) h e = ground (
    arith,
    memoried-batch_empty i (suc i) cnt (d ∷ cs) (omega arith),
    memoried-batch_empty i (suc i) (suc cnt) (d ∷ cs) (omega arith),
  )

map-take-drop :
    (n : ℕ) (cs ds : List CommunicationInfo)
    → map unflag ds ≡ map unflag (drop n cs)
    → map unflag (take n cs ++ ds) ≡ map unflag cs
map-take-drop zero cs ds h = h
map-take-drop (suc n) [] ds h = h
map-take-drop (suc n) (c ∷ cs) ds h = ap (λ t. unflag c ∷ t) (map-take-drop n cs ds h)

pending-append :
    (cs ds : List CommunicationInfo)
    → length (pending (cs ++ ds)) ≡ length (pending cs) + length (pending ds)
pending-append [] ds = omega arith
pending-append (c ∷ cs) ds = ground (arith, pending-append cs ds)

pending-split :
    (n : ℕ) (cs : List CommunicationInfo)
    → length (pending (take n cs)) + length (pending (drop n cs)) ≡ length (pending cs)
pending-split zero cs = omega arith
pending-split (suc n) [] = omega arith
pending-split (suc n) (c ∷ cs) = ground (arith, pending-split n cs)

-- A batch for syncing, of `max > 0` results at most, takes the first `max` pending results from the
-- index where the last batch ended. Each result keeps all but its flag, and as many results stop
-- being pending as were taken.
pub next_batch_lem :
    (m : Manager) (max : ℕ)
    → 0 < max
    → let (taken, m') = next_batch m (pos max) (pos 1) in
      (taken ≡ take max (pending (drop m.memoried m.communication_info_array)))
      × (map unflag m'.communication_info_array ≡ map unflag m.communication_info_array)
      × (length (pending m'.communication_info_array) + length taken
          ≡ length (pending m.communication_info_array))
unfolding next_batch
next_batch_lem m zero h = elim h [ ]
next_batch_lem m (suc room) h = (
  taken-batch (suc room) m.memoried m.memoried 0 room (drop m.memoried m.communication_info_array)
      (omega arith),
  map-take-drop m.memoried m.communication_info_array _ (
      unflag-batch (suc room) m.memoried m.memoried 0 (drop m.memoried m.communication_info_array)),
  omega (
    arith,
    pending-append (take m.memoried m.communication_info_array)
        (batch (pos (suc room)) (pos 1) m.memoried m.memoried 0
          (drop m.memoried m.communication_info_array)).left,
    pending-split m.memoried m.communication_info_array,
    pending-batch (suc room) m.memoried m.memoried 0 (drop m.memoried m.communication_info_array),
  ),
)
