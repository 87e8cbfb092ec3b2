-- ===== src/InterfaceGroup/Start/Laws.antt =====
-- Which initializers the group calls, and which threads it starts and joins.
use monitor_node.Prelude.{
  ◌≢◌, ◌↔◌, inl, inr, not, ℤ, error, eqb_ℤ, eqb_ℤ-eq, arith, Bool-cases, Str, ℕ, zero, suc, ◌≡◌,
  refl, ap, pos, Bool, true, false, Option, none, some, List, [], ◌∷◌, length, if◌then◌else◌, ◌>>=◌,
  Yields, Yields-bind_known, Yields-then,
}
use monitor_node.InfoManager.{Manager}
use monitor_node.InfoManager.Interfaces.{get_interface_name_by_index}
use monitor_node.InfoManager.Interfaces.Parameters.{get_initializer_name_by_index}
use monitor_node.Initializer.Common.{Host, Outcome}
use monitor_node.Initializer.Transfer.{initializer_transfer}
use monitor_node.InterfaceGroup.Start.{
  initialize_from, create_threads, join_threads, Group, test_or_listen_upon_interface_group,
}

-- A thread for each interface that is initialized, with its index, and none for the others.
abbrev pub threads_for : ℕ → List Bool → List (Option ℕ)
threads_for i [] = []
threads_for i (true ∷ flags) = some i ∷ threads_for (suc i) flags
threads_for i (false ∷ flags) = none ∷ threads_for (suc i) flags

-- The indexes from `i` on.
abbrev pub all_indexes : ℕ → ℕ → List ℕ
all_indexes i zero = []
all_indexes i (suc n) = i ∷ all_indexes (suc i) n

abbrev pub all_set : List Bool → Bool
all_set [] = true
all_set (true ∷ flags) = all_set flags
all_set (false ∷ flags) = false

create_threads_lem :
    (i : ℕ) (flags : List Bool) → create_threads (λ j. true) i flags ≡ some (threads_for i flags)
unfolding create_threads
create_threads_lem i [] = refl
create_threads_lem i (true ∷ flags) = rw (create_threads_lem (suc i) flags) refl
create_threads_lem i (false ∷ flags) = rw (create_threads_lem (suc i) flags) refl

join_threads_lem :
    (i : ℕ) (flags : List Bool)
    → join_threads (threads_for i flags)
      ≡ (if all_set flags then some (all_indexes i (length flags)) else none)
unfolding join_threads
join_threads_lem i [] = refl
join_threads_lem i (true ∷ flags) = rw (join_threads_lem (suc i) flags) (split (all_set flags))
  where
    split :
        (b : Bool)
        → ((if b then some (all_indexes (suc i) (length flags)) else none) >>= λ js. some (i ∷ js))
          ≡ (if b then some (i ∷ all_indexes (suc i) (length flags)) else none)
    split true = refl
    split false = refl
join_threads_lem i (false ∷ flags) = refl

-- The initializers of the interfaces from index `i` on are called in turn, each on the table that the
-- one before left, and each flag tells whether the code was another one than -1; `m1` is the table at
-- the end.
abbrev pub Opened : (ℕ → Host) → ℕ → Manager → List Bool → Manager → Type 0
Opened hosts i m [] m1 = m ≡ m1
Opened hosts i m (flag ∷ flags) m1 =
    (initializer : Str) × (name : Str) × (o : Outcome) × (get_initializer_name_by_index m (pos i)
      ≡ some initializer)
    × (get_interface_name_by_index m (pos i) ≡ some name)
    × (initializer_transfer (hosts i) m initializer name ≡ some o)
    × ((flag ≡ true) ↔ (o.code ≢ error))
    × Opened hosts (suc i) o.manager flags m1

flag_lem : (code : ℤ) → (not (eqb_ℤ code error) ≡ true) ↔ (code ≢ error)
flag_lem code = elim (Bool-cases (eqb_ℤ code error)) [
  | inl e ↦ (λ f. ground arith, λ ne. absurd (ne (eqb_ℤ-eq code error e)))
  | inr e ↦ ((λ f q. ground arith), λ ne. ground arith)
]

-- As many flags as interfaces, and what they tell.
initialize_from-Opened :
    (hosts : ℕ → Host) (n i : ℕ) (m : Manager)
    → Yields
        (λ r. (length r.initialized_flags ≡ n) × Opened hosts i m r.initialized_flags r.manager)
        (initialize_from hosts n i m)
unfolding initialize_from
initialize_from-Opened hosts zero i m = (refl, refl)
initialize_from-Opened hosts (suc n) i m =
    Yields-bind_known _ (get_initializer_name_by_index m (pos i)) _ (λ initializer e.
      Yields-bind_known _ (get_interface_name_by_index m (pos i)) _ (λ name e1.
        Yields-bind_known _ (initializer_transfer (hosts i) m initializer name) _ (λ o e2.
          Yields-then _ _ (initialize_from hosts n (suc i) o.manager) _
            (initialize_from-Opened hosts n (suc i) o.manager)
            (λ r h. (ap suc h.0, (initializer, name, o, e, e1, e2, flag_lem o.code, h.1))))))

-- What the group does: the flags are those of the initializers.
pub record Starts (hosts : ℕ → Host) (m : Manager) (g : Group) : Type 0 where
  pub one_each : length g.initialized.initialized_flags ≡ length m.interface_info_array
  pub opened : Opened hosts 0 m g.initialized.initialized_flags g.initialized.manager
  pub threads_are : g.threads ≡ some (threads_for 0 g.initialized.initialized_flags)
  pub joined_are : g.joined ≡ (
      if all_set g.initialized.initialized_flags
      then some (all_indexes 0 (length m.interface_info_array))
      else none)

-- When all calls of `pthread_create` succeed and the initializers do not fault, the initializers of all
-- interfaces are called in turn, each on the table that the one before left; a thread runs for exactly
-- the interfaces whose initializer did not give -1; and the function joins the threads of all
-- interfaces when none was refused. When one was refused it joins a thread handle that was never set,
-- which is a fault.
pub test_or_listen_upon_interface_group_lem :
    (hosts : ℕ → Host) (m : Manager)
    → Yields (Starts hosts m) (test_or_listen_upon_interface_group hosts (λ i. true) m)
unfolding test_or_listen_upon_interface_group
test_or_listen_upon_interface_group_lem hosts m =
    Yields-then
      (λ r.
        (length r.initialized_flags ≡ length m.interface_info_array)
        × Opened hosts 0 m r.initialized_flags r.manager)
      _ (initialize_from hosts (length m.interface_info_array) 0 m) _
      (initialize_from-Opened hosts (length m.interface_info_array) 0 m)
      (λ r h. record {
        one_each = h.0;
        opened = h.1;
        threads_are = create_threads_lem 0 r.initialized_flags;
        joined_are =
            rw (create_threads_lem 0 r.initialized_flags, ← h.0)
              (join_threads_lem 0 r.initialized_flags);
      })
