-- ===== src/OneInterface/Round/Laws.antt =====
-- What a tester of src/one_interface_operator.c sends in a round.
use monitor_node.Prelude.{
  ℕ, zero, suc, ◌+◌, ◌<◌, ◌≡◌, refl, ap, subst, ◌⊎◌, inl, inr, ℤ, pos, eqb_ℤ, error, Str, strcmp_eq,
  Bool, true, false, some, List, [], ◌∷◌, ◌++◌, if◌then◌else◌, ◌>>=◌, arith, Yields, Yields-then,
  Yields-bind_known, Yields-if_known,
}
use monitor_node.InfoManager.{Manager, InterfaceInfo}
use monitor_node.InfoManager.Interfaces.{
  interface_at, get_center_interface_name, get_interface_name_by_linked_interface_name,
}
use monitor_node.InfoManager.Newest.{parse_newest_communication_infos_to_json}
use monitor_node.StatusChooser.{receiving, closed}
use monitor_node.Firmware.Send.{Sent, send_message}
use monitor_node.OneInterface.Choose.{sync_the_communication_infos}
use monitor_node.OneInterface.Round.{
  World, Event, sent, sync_times, max_sync_num, send_packages, sync_batch, sync_parts, operate,
}

-- An interface of the table that is receiving or closed sends none of its packages, and the manager
-- does not change.
pub send_packages_silent :
    (w : World) (n i : ℕ) (ind : ℤ) (name message : Str) (m : Manager) (f : InterfaceInfo)
    → interface_at m ind ≡ some f
    → (f.status ≡ receiving) ⊎ (f.status ≡ closed)
    → send_packages w n i ind name message m ≡ some (m, [])
unfolding send_packages strcmp_eq
send_packages_silent w zero i ind name message m f e s = refl
send_packages_silent w (suc n) i ind name message m f e (inl s) =
    rw (e, s) (send_packages_silent w n (suc i) ind name message m f e (inl s))
send_packages_silent w (suc n) i ind name message m f e (inr s) =
    rw (e, s) (send_packages_silent w n (suc i) ind name message m f e (inr s))

module _ (w : World) (ind : ℤ) where
  -- The next batch is taken: its text, and the manager in which it is marked as synced.
  abbrev pub text_of : Manager → Str
  text_of m = (parse_newest_communication_infos_to_json w.platform m max_sync_num (pos 1)).0

  abbrev pub after : Manager → Manager
  after m = (parse_newest_communication_infos_to_json w.platform m max_sync_num (pos 1)).1

  -- One of the sends of a sync, with the text of a batch: the interface is the one whose link leads to
  -- the center.
  pub record Sends (i j : ℕ) (m : Manager) (text : Str) (r : Sent) : Type 0 where
    pub center : Str
    pub center_is : get_center_interface_name m ind ≡ some center
    pub answered :
        send_message
          (w.sync_wire i j)
          m
          (get_interface_name_by_linked_interface_name m center)
          (some text)
        ≡ some r

  -- `n` sends from number `j` on, none of which failed.
  abbrev pub AllSent : ℕ → ℕ → ℕ → Manager → Str → List Event → Type 0
  AllSent i j zero m text es = es ≡ []
  AllSent i j (suc n) m text es =
      (r : Sent) × (fs : List Event) × (es ≡ sent r ∷ fs)
      × Sends i j m text r
      × (eqb_ℤ r.code error ≡ false)
      × AllSent i (suc j) n m text fs

  -- Less than `n` sends from number `j` on that did not fail, and then one that failed.
  abbrev pub OneFailed : ℕ → ℕ → ℕ → Manager → Str → List Event → Type 0
  OneFailed i j n m text es =
      (k : ℕ) × (fs : List Event) × (r : Sent) × (k < n)
      × AllSent i j k m text fs
      × Sends i (j + k) m text r
      × (eqb_ℤ r.code error ≡ true)
      × (es ≡ fs ++ sent r ∷ [])

  -- The parts of a sync from number `i` on, with `n` left: a part takes a batch; a send that fails ends
  -- the sync, and when its sends do not fail the next part follows.
  abbrev pub Synced : ℕ → ℕ → Manager → Manager × List Event → Type 0
  Synced i zero m (m', es) = (m' ≡ m) × (es ≡ [])
  Synced i (suc n) m (m', es) =
      ((m' ≡ after m) × OneFailed i 0 sync_times (after m) (text_of m) es)
      ⊎ ((fs : List Event) × (gs : List Event) × (es ≡ fs ++ gs)
          × AllSent i 0 sync_times (after m) (text_of m) fs
          × Synced (suc i) n (after m) (m', gs))

  -- What the inner loop gives.
  abbrev Batch : ℕ → ℕ → ℕ → Manager → Str → Bool × List Event → Type 0
  Batch i j n m text (failed, es) =
      ((failed ≡ true) × OneFailed i j n m text es) ⊎ ((failed ≡ false) × AllSent i j n m text es)

  Batch-after :
      (i j n : ℕ) (m : Manager) (text : Str) (r : Sent) (b : Bool × List Event)
      → Sends i j m text r
      → eqb_ℤ r.code error ≡ false
      → Batch i (suc j) n m text b
      → Batch i j (suc n) m text (b.0, sent r ∷ b.1)
  Batch-after i j n m text r b s e (inl (f, (k, fs, q, small, all, last, bad, is))) = inl (
    f,
    (
      suc k,
      sent r ∷ fs,
      q,
      omega (arith, small),
      (r, fs, refl, s, e, all),
      subst (λ t. Sends i t m text q) (omega arith) last,
      bad,
      ap (λ t. sent r ∷ t) is,
    ),
  )
  Batch-after i j n m text r b s e (inr (f, all)) = inr (f, (r, b.1, refl, s, e, all))

  sync_batch-Batch :
      (n i j : ℕ) (m : Manager) (text : Str)
      → Yields (Batch i j n m text) (sync_batch w n i j ind text m)
  unfolding sync_batch
  sync_batch-Batch zero i j m text = inr (refl, refl)
  sync_batch-Batch (suc n) i j m text =
      Yields-bind_known _ (get_center_interface_name m ind) _ (λ center c.
        Yields-bind_known _
          (send_message (w.sync_wire i j) m (get_interface_name_by_linked_interface_name m center)
            (some text))
          _
          (λ r a.
            let s : Sends i j m text r = record { center = center; center_is = c; answered = a } in
            Yields-if_known _ (eqb_ℤ r.code error) _ _
              (λ e. inl (
                refl,
                (
                  0,
                  [],
                  r,
                  omega arith,
                  refl,
                  subst (λ t. Sends i t m text r) (omega arith) s,
                  e,
                  refl,
                ),
              ))
              (λ e.
                Yields-then (Batch i (suc j) n m text) _ (sync_batch w n i (suc j) ind text m) _
                  (sync_batch-Batch n i (suc j) m text)
                  (λ b h. Batch-after i j n m text r b s e h))))

  sync_parts-Synced : (n i : ℕ) (m : Manager) → Yields (Synced i n m) (sync_parts w n i ind m)
  unfolding sync_parts
  sync_parts-Synced zero i m = (refl, refl)
  sync_parts-Synced (suc n) i m =
      Yields-then (Batch i 0 sync_times (after m) (text_of m)) _
        (sync_batch w sync_times i 0 ind (text_of m) (after m)) _
        (sync_batch-Batch sync_times i 0 (after m) (text_of m))
        (ended (sync_parts-Synced n (suc i) (after m)))
    where
      ended :
          Yields (Synced (suc i) n (after m)) (sync_parts w n (suc i) ind (after m))
          → (b : Bool × List Event) → Batch i 0 sync_times (after m) (text_of m) b
          → Yields (Synced i (suc n) m) (
              if b.0
              then some (after m, b.1)
              else sync_parts w n (suc i) ind (after m) >>= λ (m2, fs). some (m2, b.1 ++ fs))
      ended rest b (inl (f, bad)) = rw f (inl (refl, bad))
      ended rest b (inr (f, good)) = rw f (
          Yields-then (Synced (suc i) n (after m)) _ (sync_parts w n (suc i) ind (after m)) _ rest
            (λ r h. inr (b.1, r.1, refl, good, h)))

  -- However the base functions answer, a sync that does not fault goes like this. It takes a batch, and
  -- sends its text to the interface whose link leads to the center, twice, and then the next batch in
  -- the same way. The first send that gives -1 is the last one, and then the batch that it carried
  -- is marked as synced all the same while no further batch is taken; if none does there are two sends
  -- of each of the two batches. Nothing else changes.
  pub operate-Synced :
      (m : Manager) → Yields (Synced 0 2 m) (operate w sync_the_communication_infos ind m)
  unfolding operate
  operate-Synced m = sync_parts-Synced 2 0 m
