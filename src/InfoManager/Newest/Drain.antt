-- ===== src/InfoManager/Newest/Drain.antt =====
-- Repeated batches reach every pending result.
use monitor_node.Prelude.{
  ℕ, zero, suc, ◌+◌, ◌*◌, ◌≤◌, ◌<◌, ◌≡◌, refl, ◌⊎◌, inl, inr, ap, pos, List, [], ◌∷◌, map, length,
  length-take, length-drop, drop, arith, ◌==◌, if◌then◌else◌,
}
use mathlib.Core.List.{tail}
use monitor_node.InfoManager.Types.{Manager, CommunicationInfo}
use monitor_node.InfoManager.Newest.{Batch, batch, next_batch}
use monitor_node.InfoManager.Newest.Laws.{
  pending, unflag, next_batch_lem, memoried-batch, memoried-batch_empty,
}

-- The index where the next batch begins is one of the array, or 0.
abbrev pub IsInside : Manager → Type 0
IsInside m = (m.memoried ≡ 0) ⊎ (m.memoried < length m.communication_info_array)

-- How many results are pending.
abbrev pub backlog : Manager → ℕ
backlog m = length (pending m.communication_info_array)

length-unflag :
    (cs ds : List CommunicationInfo) → map unflag cs ≡ map unflag ds → length cs ≡ length ds
length-unflag [] [] h = refl
length-unflag [] (d ∷ ds) h = cc
length-unflag (c ∷ cs) [] h = cc
length-unflag (c ∷ cs) (d ∷ ds) h = ap suc (length-unflag cs ds (ap tail h))

module _ (max : ℕ) (h : 0 < max) where
  step : Manager → Manager
  step m = (next_batch m (pos max) (pos 1)).1

  length-step :
      (m : Manager) → length (step m).communication_info_array ≡ length m.communication_info_array
  unfolding step
  length-step m = length-unflag _ _ (next_batch_lem m max h).1

  -- The part of the array that the next batch goes through.
  abbrev rest : Manager → List CommunicationInfo
  rest m = drop m.memoried m.communication_info_array

  abbrev found : Manager → Batch
  found m = batch (pos max) (pos 1) m.memoried m.memoried 0 (rest m)

  memoried-step :
      (m : Manager)
      → (step m).memoried ≡ (
          if (found m).memoried + 1 == length m.communication_info_array
          then 0
          else (found m).memoried)
  unfolding step next_batch
  memoried-step m = refl

  backlog-step_taken : (m : Manager) → backlog (step m) + length (found m).taken ≡ backlog m
  unfolding step next_batch
  backlog-step_taken m = (next_batch_lem m max h).2

  found-none : (m : Manager) → length (rest m) ≡ 0 → (found m).memoried ≡ m.memoried
  unfolding batch
  found-none m e = go (rest m) e
    where
      go :
          (cs : List CommunicationInfo)
          → length cs ≡ 0
          → (batch (pos max) (pos 1) m.memoried m.memoried 0 cs).memoried ≡ m.memoried
      go [] e = refl
      go (c ∷ cs) e = absurd (omega arith)

  -- The index stays inside of the array.
  step-IsInside : (m : Manager) → IsInside m → IsInside (step m)
  step-IsInside m v =
      let l = length-drop m.memoried m.communication_info_array in
      let c : (length (rest m) ≡ 0) ⊎ (0 < length (rest m)) = omega arith in
      elim c [
        | inl e ↦ ground (arith, memoried-step m, length-step m, found-none m e, l)
        | inr p ↦ ground (
          arith,
          memoried-step m,
          length-step m,
          memoried-batch max m.memoried m.memoried 0 (rest m) p,
          l,
        )
      ]

  -- A batch takes something, or the next one begins at the start.
  step_empty :
      (m : Manager)
      → IsInside m
      → (backlog (step m) < backlog m) ⊎ ((backlog (step m) ≡ backlog m) × ((step m).memoried ≡ 0))
  step_empty m v =
      let l = length-drop m.memoried m.communication_info_array in
      let b = backlog-step_taken m in
      let c : ((length (found m).taken ≡ 0) × (length (rest m) ≡ 0))
          ⊎ ((length (found m).taken ≡ 0) × (0 < length (rest m)))
          ⊎ (0 < length (found m).taken) =
        omega arith in
      elim c [
        | inl (t, e) ↦ inr (omega (arith, b), ground (arith, memoried-step m, found-none m e, l))
        | inr (inl (t, e)) ↦ inr (
          omega (arith, b),
          ground (
            arith,
            memoried-step m,
            memoried-batch_empty max m.memoried m.memoried 0 (rest m) e t,
            l,
          ),
        )
        | inr (inr t) ↦ inl (omega (arith, b))
      ]

  -- From the start a batch takes something if anything is pending.
  step_start : (m : Manager) → m.memoried ≡ 0 → 0 < backlog m → backlog (step m) < backlog m
  unfolding step
  step_start m e p =
      let (t, _, b) = next_batch_lem m max h in
      let l = ap length t in
      let d : length (pending (drop m.memoried m.communication_info_array)) ≡ backlog m = rw e in
      omega (arith, b, l, d, length-take max (pending (drop m.memoried m.communication_info_array)))

  backlog-step : (m : Manager) → backlog (step m) ≤ backlog m
  unfolding step
  backlog-step m = omega (arith, (next_batch_lem m max h).2)

  -- Twice the results that are pending, and one more if the next batch does not begin at the start.
  potential : Manager → ℕ
  potential m = 2 * backlog m + (if m.memoried == 0 then 0 else 1)

  potential-step : (m : Manager) → IsInside m → 0 < backlog m → potential (step m) < potential m
  unfolding potential
  potential-step m v p = ground (arith, step_empty m v, step_start m)

  -- `n` batches for syncing, one after the other: how many results they took, and the last state.
  pub batches : ℕ → Manager → ℕ × Manager
  batches zero m = (0, m)
  batches (suc n) m =
      let (taken, m') = next_batch m (pos max) (pos 1) in
      let (count, last) = batches n m' in (length taken + count, last)

  batches-step : (n : ℕ) (m : Manager) → (batches (suc n) m).1 ≡ (batches n (step m)).1
  unfolding batches step
  batches-step n m = refl

  batches_none : (n : ℕ) (m : Manager) → backlog m ≡ 0 → backlog (batches n m).1 ≡ 0
  batches_none zero m e = unfold batches in e
  batches_none (suc n) m e =
      rw batches-step (batches_none n (step m) (omega (arith, backlog-step m)))

  drained : (n : ℕ) (m : Manager) → IsInside m → potential m ≤ n → backlog (batches n m).1 ≡ 0
  drained zero m v p = unfold batches potential in (omega arith)
  drained (suc n) m v p =
      let c : (backlog m ≡ 0) ⊎ (0 < backlog m) = omega arith in
      elim c [
        | inl e ↦ batches_none (suc n) m e
        | inr q ↦
            rw batches-step
              (drained n (step m) (step-IsInside m v) (omega (arith, potential-step m v q)))
      ]

  counted : (n : ℕ) (m : Manager) → (batches n m).0 + backlog (batches n m).1 ≡ backlog m
  unfolding batches
  counted zero m = omega arith
  counted (suc n) m =
      omega (arith, (next_batch_lem m max h).2, counted n (next_batch m (pos max) (pos 1)).1)

  -- When the next batch begins at index 0 or inside of the array, more batches of `max > 0` results
  -- at most than twice the results that are pending leave none: they take as many results as were
  -- pending at first.
  pub batches_drain :
      (n : ℕ) (m : Manager)
      → IsInside m
      → 2 * backlog m < n
      → (backlog (batches n m).1 ≡ 0) × ((batches n m).0 ≡ backlog m)
  batches_drain n m v p =
      let d = drained n m v (unfold potential in (ground arith)) in
      (d, omega (arith, counted n m, d))
