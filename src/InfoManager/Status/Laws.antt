-- ===== src/InfoManager/Status/Laws.antt =====
-- What `set_interface_status` does on each of its paths.
use monitor_node.Prelude.{
  ◌≡◌, refl, ◌⊎◌, inl, inr, error, success, Str, strcmp_eq, strcmp_eq-eq, strcmp_eq_refl, true,
  false, none, some, List, [], ◌∷◌, map, All, arith, Bool-cases, if◌then◌else◌,
}
use monitor_node.InfoManager.Types.{Manager, InterfaceInfo}
use monitor_node.InfoManager.Interfaces.{
  has_name, is_this_interface_in_current_node, status_of, get_interface_status,
}
use monitor_node.InfoManager.Status.{is_valid_status, with_status, set_interface_status}

-- The statuses of all interfaces are valid.
abbrev pub StatusesValid : Manager → Type 0
StatusesValid m = All (λ f. is_valid_status f.status ≡ true) m.interface_info_array

-- The array with the first entry of the name changed, if there is one.
restatus : Str → Str → List InterfaceInfo → List InterfaceInfo
restatus name status [] = []
restatus name status (f ∷ fs) =
    let rest = restatus name status fs in
    if strcmp_eq f.interface_name name then record f { status = status } ∷ fs else f ∷ rest

with_status-restatus :
    (name status : Str) (fs : List InterfaceInfo)
    → with_status name status fs
      ≡ (if has_name name fs then some (restatus name status fs) else none)
unfolding has_name with_status restatus
with_status-restatus name status [] = refl
with_status-restatus name status (f ∷ fs) = ground (arith, with_status-restatus name status fs)

status_of-restatus :
    (name status other : Str) (fs : List InterfaceInfo)
    → has_name name fs ≡ true
    → status_of other (restatus name status fs)
      ≡ (if strcmp_eq name other then some status else status_of other fs)
unfolding has_name status_of restatus
status_of-restatus name status other [] h = cc
status_of-restatus name status other (f ∷ fs) h = ground (
  arith,
  status_of-restatus name status other fs,
  strcmp_eq-eq f.interface_name name,
  strcmp_eq-eq f.interface_name other,
  strcmp_eq-eq name other,
  strcmp_eq_refl name,
)

restatus-All :
    (name status : Str) (fs : List InterfaceInfo)
    → is_valid_status status ≡ true
    → All (λ f. is_valid_status f.status ≡ true) fs
    → All (λ f. is_valid_status f.status ≡ true) (restatus name status fs)
unfolding restatus
restatus-All name status [] v a = tt
restatus-All name status (f ∷ fs) v a = elim (Bool-cases (strcmp_eq f.interface_name name)) [
  | inl same ↦ rw same (v, a.1)
  | inr other ↦ rw other (a.0, restatus-All name status fs v a.1)
]

-- Setting the status of an interface of this node to a valid one succeeds; then that name has the
-- status, and every other name the status it had.
pub get-set_interface_status :
    (m : Manager) (name status : Str)
    → is_valid_status status ≡ true
    → is_this_interface_in_current_node m name ≡ true
    → let r = set_interface_status m name status in
      (r.0 ≡ success)
      × ((other : Str)
          → get_interface_status r.1 other
            ≡ (if strcmp_eq name other then some status else get_interface_status m other))
unfolding set_interface_status is_this_interface_in_current_node get_interface_status
get-set_interface_status m name status v h =
    let e = with_status-restatus name status m.interface_info_array in
    (rw (v, e, h), λ other. rw (v, e, h) (status_of-restatus name status other _ h))

-- An invalid status or a name that is not in this node is refused, and nothing changes.
pub set_interface_status_refused :
    (m : Manager) (name status : Str)
    → (is_valid_status status ≡ false) ⊎ (is_this_interface_in_current_node m name ≡ false)
    → set_interface_status m name status ≡ (error, m)
unfolding set_interface_status is_this_interface_in_current_node
set_interface_status_refused m name status (inl h) = ground arith
set_interface_status_refused m name status (inr h) =
    ground (arith, with_status-restatus name status m.interface_info_array)

-- When the statuses are valid they stay so, whatever is asked for.
pub set_interface_status-StatusesValid :
    (m : Manager) (name status : Str)
    → StatusesValid m
    → StatusesValid (set_interface_status m name status).1
unfolding set_interface_status
set_interface_status-StatusesValid m name status a = elim (Bool-cases (is_valid_status status)) [
  | inr bad ↦ rw bad a
  | inl good ↦ elim (Bool-cases (has_name name m.interface_info_array)) [
    | inl e ↦ rw (good, with_status-restatus, e) (restatus-All name status _ good a)
    | inr e ↦ rw (good, with_status-restatus, e) a
  ]
]

names-restatus :
    (name status : Str) (fs : List InterfaceInfo)
    → map (λ f. f.interface_name) (restatus name status fs) ≡ map (λ f. f.interface_name) fs
unfolding restatus
names-restatus name status [] = refl
names-restatus name status (f ∷ fs) = elim (Bool-cases (strcmp_eq f.interface_name name)) [
  | inl e ↦ rw e
  | inr e ↦ rw (e, names-restatus name status fs)
]

-- A status does not change the names, nor the start of the test.
pub names-set_interface_status :
    (m : Manager) (name status : Str)
    → let m' = (set_interface_status m name status).1 in
      (map (λ f. f.interface_name) m'.interface_info_array
        ≡ map (λ f. f.interface_name) m.interface_info_array)
      × (m'.test_begin_time ≡ m.test_begin_time)
unfolding set_interface_status
names-set_interface_status m name status = elim (Bool-cases (is_valid_status status)) [
  | inr v ↦ rw v (refl, refl)
  | inl v ↦ elim (Bool-cases (has_name name m.interface_info_array)) [
    | inr n ↦ rw (v, with_status-restatus, n) (refl, refl)
    | inl n ↦
        rw (v, with_status-restatus, n) (names-restatus name status m.interface_info_array, refl)
  ]
]
