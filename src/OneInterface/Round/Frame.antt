-- ===== src/OneInterface/Round/Frame.antt =====
-- src/one_interface_operator.c: what a round of a tester does not change.
use monitor_node.Prelude.{
  ℕ, zero, suc, ◌≡◌, refl, ◌∙◌, sym, ap, subst, inl, inr, ℤ, pos, negsuc, error, Str, strcmp_eq,
  Bool, ◌||◌, some, List, [], ◌∷◌, All, map, get_elem?, set, if◌then◌else◌, Option-cases, Yields,
  Yields-bind, Yields-then, Yields-if,
}
use mathlib.Core.Option.{some-injective}
use monitor_node.InfoManager.{Manager, InterfaceInfo}
use monitor_node.InfoManager.Interfaces.{
  index_from, get_interface_index, get_interface_status_by_index, set_last_work_time,
  get_status_chooser_by_index,
}
use monitor_node.InfoManager.Status.Laws.{
  StatusesValid, names-set_interface_status, set_interface_status-StatusesValid,
}
use monitor_node.InfoManager.Newest.{next_batch, parse_newest_communication_infos_to_json}
use monitor_node.Firmware.Send.{send_message}
use monitor_node.Firmware.Status.{set_status}
use monitor_node.Firmware.Status.Laws.{set_status_manager}
use monitor_node.StatusChooser.{receiving, closed, status_chooser_transfer}
use monitor_node.OneInterface.State.{current_round_at}
use monitor_node.OneInterface.Choose.{update_status_in_current_round}
use monitor_node.OneInterface.Round.{
  World, send_packages, sync_batch, sync_parts, sync_times, max_sync_num,
}

abbrev pub names : Manager → List Str
names m = map (λ f. f.interface_name) m.interface_info_array

-- The two managers have the same interfaces, by name and order, and the same start of the test, and
-- the statuses are still valid ones.
pub record Frame (m m' : Manager) : Type 0 where
  pub named : names m' ≡ names m
  pub begun : m'.test_begin_time ≡ m.test_begin_time
  pub valid : StatusesValid m → StatusesValid m'

pub same : (m : Manager) → Frame m m
same m = record { named = refl; begun = refl; valid = λ v. v }

pub Frame-trans : (m m' m'' : Manager) → Frame m m' → Frame m' m'' → Frame m m''
Frame-trans m m' m'' f g = record {
  named = g.named ∙ f.named;
  begun = g.begun ∙ f.begun;
  valid = λ v. g.valid (f.valid v);
}

-- An index is one of the names.
index_names : ℕ → Str → List Str → ℤ
index_names i name [] = error
index_names i name (n ∷ ns) = if strcmp_eq n name then pos i else index_names (suc i) name ns

index_from-names :
    (i : ℕ) (name : Str) (fs : List InterfaceInfo)
    → index_from i name fs ≡ index_names i name (map (λ f. f.interface_name) fs)
unfolding index_from index_names
index_from-names i name [] = refl
index_from-names i name (f ∷ fs) = rw (index_from-names (suc i) name fs)

pub get_interface_index-Frame :
    (m m' : Manager) (name : Str)
    → Frame m m'
    → get_interface_index m' name ≡ get_interface_index m name
unfolding get_interface_index
get_interface_index-Frame m m' name h =
    index_from-names 0 name m'.interface_info_array
    ∙ ap (index_names 0 name) h.named
    ∙ sym (index_from-names 0 name m.interface_info_array)

pub current_round_at-Frame :
    (m m' : Manager) (now : ℤ) → Frame m m' → current_round_at m' now ≡ current_round_at m now
unfolding current_round_at
current_round_at-Frame m m' now h = rw h.begun

-- A list keeps its names when an entry is changed but for its name.
names-set :
    (fs : List InterfaceInfo) (i : ℕ) (f g : InterfaceInfo)
    → get_elem? fs i ≡ some f
    → g.interface_name ≡ f.interface_name
    → map (λ h. h.interface_name) (set fs i g) ≡ map (λ h. h.interface_name) fs
names-set [] i f g e n = refl
names-set (h ∷ fs) zero f g e n =
    ap (λ t. t ∷ map (λ k. k.interface_name) fs)
      (n ∙ ap (λ k. k.interface_name) (sym (some-injective _ _ e)))
names-set (h ∷ fs) (suc i) f g e n = ap (λ t. h.interface_name ∷ t) (names-set fs i f g e n)

-- What holds of all entries goes on to hold when one is changed in a way that keeps it.
All-set :
    {A : Type 0} (P : A → Type 0) (xs : List A) (i : ℕ) (x y : A)
    → get_elem? xs i ≡ some x
    → (P x → P y)
    → All P xs
    → All P (set xs i y)
All-set P [] i x y e h a = a
All-set P (z ∷ xs) zero x y e h (a, as_) = (h (subst P (some-injective _ _ e) a), as_)
All-set P (z ∷ xs) (suc i) x y e h (a, as_) = (a, All-set P xs i x y e h as_)

pub set_last_work_time-Frame :
    (m : Manager) (i : ℤ) (now : ℤ) → Yields (Frame m) (set_last_work_time m i now)
set_last_work_time-Frame m (negsuc i) now = tt
set_last_work_time-Frame m (pos i) now = elim (Option-cases (get_elem? m.interface_info_array i)) [
  | inl e ↦ rw e tt
  | inr (f, e) ↦ rw e (record {
    named = names-set m.interface_info_array i f (record f { last_work_time = now }) e refl;
    begun = refl;
    valid = All-set _ m.interface_info_array i f (record f { last_work_time = now }) e (λ v. v);
  })
]

next_batch-Frame : (m : Manager) (max sync : ℤ) → Frame m (next_batch m max sync).1
unfolding next_batch
next_batch-Frame m max sync = record { named = refl; begun = refl; valid = λ v. v }

pub update_status-Frame :
    (is_up : Str → Bool) (m : Manager) (name mode : Str) (r : ℤ)
    → Yields (λ o. Frame m o.manager) (update_status_in_current_round is_up m name mode r)
unfolding update_status_in_current_round
update_status-Frame is_up m name mode r =
    Yields-bind _ (get_status_chooser_by_index m (get_interface_index m name)) _
      (λ chooser. set_frame (status_chooser_transfer chooser name mode r))
  where
    set_frame :
        (status : Str)
        → Yields (λ o. Frame m o.manager) (set_status is_up m (some name) (some status))
    set_frame status = elim (Option-cases (set_status is_up m (some name) (some status))) [
      | inl e ↦ rw e tt
      | inr (o, e) ↦ rw e (elim (set_status_manager is_up m name status o e) [
        | inl q ↦ subst (Frame m) (sym q) (same m)
        | inr q ↦
            let (n, b) = names-set_interface_status m name status in
            subst (Frame m) (sym q) (record {
              named = n;
              begun = b;
              valid = set_interface_status-StatusesValid m name status;
            })
      ])
    ]

module _ (w : World) where
  pub send_packages-Frame :
      (n i : ℕ) (ind : ℤ) (name message : Str) (m : Manager)
      → Yields (λ r. Frame m r.0) (send_packages w n i ind name message m)
  unfolding send_packages
  send_packages-Frame zero i ind name message m = same m
  send_packages-Frame (suc n) i ind name message m =
      Yields-bind _ (get_interface_status_by_index m ind) _ (λ status.
        Yields-if _ (strcmp_eq status receiving || strcmp_eq status closed) _ _
          (send_packages-Frame n (suc i) ind name message m)
          (Yields-then (Frame m) _ (set_last_work_time m ind (w.clock i)) _
            (set_last_work_time-Frame m ind (w.clock i))
            (λ m1 k. Yields-bind _ (send_message (w.wire i) m1 (some name) (some message)) _ (λ r.
              Yields-then (λ q. Frame m1 q.0) _ (send_packages w n (suc i) ind name message m1) _
                (send_packages-Frame n (suc i) ind name message m1)
                (λ q h. Frame-trans m m1 q.0 k h)))))

  pub sync_parts-Frame :
      (n i : ℕ) (ind : ℤ) (m : Manager) → Yields (λ r. Frame m r.0) (sync_parts w n i ind m)
  unfolding sync_parts parse_newest_communication_infos_to_json
  sync_parts-Frame zero i ind m = same m
  sync_parts-Frame (suc n) i ind m =
      let m1 = (next_batch m max_sync_num (pos 1)).1 in
      let k = next_batch-Frame m max_sync_num (pos 1) in
      Yields-bind _
        (sync_batch w sync_times i 0 ind
          (parse_newest_communication_infos_to_json w.platform m max_sync_num (pos 1)).0 m1)
        _
        (λ o. Yields-if _ o.0 _ _ k (
          Yields-then (λ q. Frame m1 q.0) _ (sync_parts w n (suc i) ind m1) _
            (sync_parts-Frame n (suc i) ind m1) (λ q h. Frame-trans m m1 q.0 k h)))
