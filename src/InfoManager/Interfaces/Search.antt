-- ===== src/InfoManager/Interfaces/Search.antt =====
-- The searches by name in `interface_info_array` agree with one another, and find the first entry.
use monitor_node.Prelude.{
  ℕ, zero, suc, ◌+◌, ◌<◌, ◌≡◌, refl, ◌≢◌, ◌⊎◌, inl, inr, pos, error, Str, strcmp_eq, strcmp_eq-eq,
  strcmp_eq_refl, true, false, none, some, List, [], ◌∷◌, get_elem?, arith, Bool-cases,
}
use monitor_node.InfoManager.Types.{Manager, InterfaceInfo}
use monitor_node.InfoManager.Interfaces.{
  index_from, get_interface_index, has_name, is_this_interface_in_current_node, status_of,
  get_interface_status, get_interface_status_by_index, interface_at,
}

-- The entry at `i` has the name, and no entry before it has.
pub record IsFirst (name : Str) (fs : List InterfaceInfo) (i : ℕ) : Type 0 where
  pub entry : InterfaceInfo
  pub at : get_elem? fs i ≡ some entry
  pub named : entry.interface_name ≡ name
  pub earlier :
      (j : ℕ) (g : InterfaceInfo) → j < i → get_elem? fs j ≡ some g → g.interface_name ≢ name

-- No entry has the name.
abbrev pub Absent : Str → List InterfaceInfo → Type 0
Absent name fs = (j : ℕ) (g : InterfaceInfo) → get_elem? fs j ≡ some g → g.interface_name ≢ name

strcmp_ne : (s t : Str) → strcmp_eq s t ≡ false → s ≢ t
strcmp_ne s t h e = ground (arith, strcmp_eq_refl t)

module _ (name : Str) where
  here :
      (f : InterfaceInfo) (fs : List InterfaceInfo)
      → f.interface_name ≡ name
      → IsFirst name (f ∷ fs) 0
  here f fs e = record { entry = f; at = refl; named = e; earlier = λ j g h. absurd (omega arith) }

  later :
      (f : InterfaceInfo) (fs : List InterfaceInfo) (i : ℕ)
      → f.interface_name ≢ name
      → IsFirst name fs i
      → IsFirst name (f ∷ fs) (suc i)
  later f fs i ne p = record { entry = p.entry; at = p.at; named = p.named; earlier = before }
    where
      before :
          (j : ℕ) (g : InterfaceInfo)
          → j < suc i
          → get_elem? (f ∷ fs) j ≡ some g
          → g.interface_name ≢ name
      before zero g h e = ground (arith, ne)
      before (suc j) g h e = p.earlier j g (omega arith) e

  Absent-cons :
      (f : InterfaceInfo) (fs : List InterfaceInfo)
      → f.interface_name ≢ name
      → Absent name fs
      → Absent name (f ∷ fs)
  Absent-cons f fs ne p zero g e = ground (arith, ne)
  Absent-cons f fs ne p (suc j) g e = p j g e

  -- What the search from `k` gives.
  index_from_cases :
      (k : ℕ) (fs : List InterfaceInfo)
      → ((i : ℕ) × (index_from k name fs ≡ pos (k + i)) × IsFirst name fs i)
        ⊎ ((index_from k name fs ≡ error) × Absent name fs)
  unfolding index_from
  index_from_cases k [] = inr (refl, λ j g e. cc)
  index_from_cases k (f ∷ fs) = elim (Bool-cases (strcmp_eq f.interface_name name)) [
    | inl same ↦ inl (0, ground arith, here f fs (strcmp_eq-eq _ _ same))
    | inr other ↦ rw other (step (index_from_cases (suc k) fs) (strcmp_ne _ _ other))
  ]
    where
      step :
          ((i : ℕ) × (index_from (suc k) name fs ≡ pos (suc k + i)) × IsFirst name fs i)
            ⊎ ((index_from (suc k) name fs ≡ error) × Absent name fs)
          → f.interface_name ≢ name
          → ((i : ℕ) × (index_from (suc k) name fs ≡ pos (k + i)) × IsFirst name (f ∷ fs) i)
            ⊎ ((index_from (suc k) name fs ≡ error) × Absent name (f ∷ fs))
      step (inl (i, e, p)) ne = inl (suc i, ground arith, later f fs i ne p)
      step (inr (e, p)) ne = inr (e, Absent-cons f fs ne p)

-- The index of a name is that of the first entry with it, and -1 exactly when there is none.
pub get_interface_index_lem :
    (m : Manager) (name : Str)
    → ((i : ℕ) × (get_interface_index m name ≡ pos i) × IsFirst name m.interface_info_array i)
      ⊎ ((get_interface_index m name ≡ error) × Absent name m.interface_info_array)
unfolding get_interface_index
get_interface_index_lem m name = elim (index_from_cases name 0 m.interface_info_array) [
  | inl (i, e, p) ↦ inl (i, ground arith, p)
  | inr r ↦ inr r
]

-- What the searches find when the entry at `i` is the first with the name.
status_of-first :
    (name : Str) (fs : List InterfaceInfo) (i : ℕ) (f : InterfaceInfo)
    → get_elem? fs i ≡ some f
    → f.interface_name ≡ name
    → ((j : ℕ) (g : InterfaceInfo) → j < i → get_elem? fs j ≡ some g → g.interface_name ≢ name)
    → (status_of name fs ≡ some f.status) × (has_name name fs ≡ true)
unfolding status_of has_name
status_of-first name [] i f at named earlier = cc
status_of-first name (g ∷ fs) zero f at named earlier =
    let s : strcmp_eq g.interface_name name ≡ true = ground (arith, strcmp_eq_refl name) in
    ground arith
status_of-first name (g ∷ fs) (suc i) f at named earlier =
    let n : g.interface_name ≢ name = earlier 0 g (omega arith) refl in
    ground (
      arith,
      n,
      strcmp_eq-eq g.interface_name name,
      status_of-first name fs i f at named (λ j h l. earlier (suc j) h (omega arith)),
    )

status_of-Absent :
    (name : Str) (fs : List InterfaceInfo)
    → Absent name fs
    → (status_of name fs ≡ none) × (has_name name fs ≡ false)
unfolding status_of has_name
status_of-Absent name [] p = (refl, refl)
status_of-Absent name (g ∷ fs) p =
    let n : g.interface_name ≢ name = p 0 g refl in
    ground
      (arith, n, strcmp_eq-eq g.interface_name name, status_of-Absent name fs (λ j h. p (suc j) h))

-- The searches by name agree: a name is in this node exactly when its index is not -1, and its
-- status is the status at its index.
pub searches_agree :
    (m : Manager) (name : Str)
    → ((is_this_interface_in_current_node m name ≡ true) × (get_interface_index m name ≢ error)
        ⊎ (is_this_interface_in_current_node m name ≡ false) × (get_interface_index m name ≡ error))
      × (get_interface_status m name ≡ get_interface_status_by_index m (get_interface_index m name))
unfolding is_this_interface_in_current_node get_interface_status
searches_agree m name = elim (get_interface_index_lem m name) [
  | inl (i, e, p) ↦
      let s = status_of-first name m.interface_info_array i p.entry p.at p.named p.earlier in
      (inl (s.1, λ q. ground arith), rw e (ground (arith, p.at)))
  | inr (e, p) ↦ let s = status_of-Absent name m.interface_info_array p in (inr (s.1, e), rw e s.0)
]

-- The entry that a name's index leads to.
pub interface_at_lem :
    (m : Manager) (name : Str)
    → ((is_this_interface_in_current_node m name ≡ true)
        × ((f : InterfaceInfo) × (interface_at m (get_interface_index m name) ≡ some f)
            × (f.interface_name ≡ name)))
      ⊎ ((is_this_interface_in_current_node m name ≡ false)
          × (interface_at m (get_interface_index m name) ≡ none))
unfolding is_this_interface_in_current_node
interface_at_lem m name = elim (get_interface_index_lem m name) [
  | inl (i, e, p) ↦
      let s = status_of-first name m.interface_info_array i p.entry p.at p.named p.earlier in
      inl (s.1, (p.entry, rw e p.at, p.named))
  | inr (e, p) ↦ let s = status_of-Absent name m.interface_info_array p in inr (s.1, rw e)
]
