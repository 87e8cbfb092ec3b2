-- ===== src/Firmware/Status/Laws.antt =====
-- Which requests `set_status` of src/firmware.c obeys.
use monitor_node.Prelude.{
  ◌⊎◌, ap, ◌≡◌, refl, sym, subst, ◌∙◌, inl, inr, ℤ, error, success, pos, ltb_ℤ, Str, strcmp_eq,
  Bool, true, Option, none, some, [], arith, Bool-cases, if◌then◌else◌,
}
use mathlib.Core.Bool.{false≢true}
use mathlib.Core.Option.{some-injective}
use monitor_node.InfoManager.{Manager, InterfaceInfo}
use monitor_node.InfoManager.Interfaces.{
  get_interface_index, get_interface_status, interface_at, is_this_interface_in_current_node,
}
use monitor_node.InfoManager.Interfaces.Search.{interface_at_lem, searches_agree}
use monitor_node.InfoManager.Status.{is_valid_status, set_interface_status}
use monitor_node.InfoManager.Status.Laws.{
  StatusesValid, set_interface_status-StatusesValid, get-set_interface_status,
  set_interface_status_refused,
}
use monitor_node.Firmware.Status.{sending_and_receiving, Outcome, set_status}
use monitor_node.Firmware.Status.Kinds.{
  Kind, half_duplex, full_duplex, mixed, kind, by_kind, change_status_lem,
}

-- What a request comes to: the code, with nothing changed, or the change.
pub data Verdict : Type 0 where
  kept : ℤ → Verdict
  changed : Verdict

abbrev pub by_kind_verdict : Kind → Str → Verdict
by_kind_verdict mixed status = kept success
by_kind_verdict full_duplex status = if is_valid_status status then changed else kept error
by_kind_verdict half_duplex status =
    if is_valid_status status
    then (if strcmp_eq status sending_and_receiving then kept error else changed)
    else kept error

abbrev pub verdict : InterfaceInfo → Str → Verdict
verdict f status =
    if strcmp_eq f.status status
    then kept success
    else by_kind_verdict (kind f.base_send_func f.base_receive_func) status

-- The outcome is that of the verdict: a change is seen under the name, and under no other.
abbrev pub Obeys : Manager → Str → Str → Verdict → Outcome → Type 0
Obeys m name status (kept code) o = (o.code ≡ code) × (o.manager ≡ m)
Obeys m name status changed o =
    (o.code ≡ success)
    × ((other : Str)
        → get_interface_status o.manager other
          ≡ (if strcmp_eq name other then some status else get_interface_status m other))

by_kind-Obeys :
    (is_up : Str → Bool) (name status : Str) (m : Manager) (k : Kind)
    → is_this_interface_in_current_node m name ≡ true
    → Obeys m name status (by_kind_verdict k status) (by_kind is_up name status m k)
unfolding by_kind
by_kind-Obeys is_up name status m mixed h = (refl, refl)
by_kind-Obeys is_up name status m full_duplex h = elim (Bool-cases (is_valid_status status)) [
  | inl v ↦ let (c, g) = get-set_interface_status m name status v h in rw v (rw c (refl, g))
  | inr v ↦ rw (v, set_interface_status_refused m name status (inl v)) (refl, refl)
]
by_kind-Obeys is_up name status m half_duplex h = elim (Bool-cases (is_valid_status status)) [
  | inl v ↦
      let (c, g) = get-set_interface_status m name status v h in
      elim (Bool-cases (strcmp_eq status sending_and_receiving)) [
        | inl both ↦ rw (v, both) (refl, refl)
        | inr one ↦ rw (v, one) (rw c (refl, g))
      ]
  | inr v ↦ rw (v, set_interface_status_refused m name status (inl v)) (ground arith, ground arith)
]

set_status_at :
    (is_up : Str → Bool) (m : Manager) (name status : Str) (f : InterfaceInfo)
    → is_this_interface_in_current_node m name ≡ true
    → interface_at m (get_interface_index m name) ≡ some f
    → get_interface_status m name ≡ some f.status
    → (g : InterfaceInfo) × (o : Outcome) × (interface_at m (get_interface_index m name) ≡ some g)
      × (set_status is_up m (some name) (some status) ≡ some o)
      × Obeys m name status (verdict g status) o
unfolding set_status
set_status_at is_up m name status f h at s = elim (Bool-cases (strcmp_eq f.status status)) [
  | inl same ↦ (
    f,
    record { code = success; manager = m; commands = [] },
    at,
    rw (s, same),
    rw same (refl, refl),
  )
  | inr other ↦
      let k = kind f.base_send_func f.base_receive_func in
      (
        f,
        by_kind is_up name status m k,
        at,
        rw (s, other) (change_status_lem is_up name status m f at),
        rw other (by_kind-Obeys is_up name status m k h),
      )
]

-- A call of `set_status` on an interface of this node obeys the verdict: it succeeds and changes
-- nothing if the interface has the status already or its two functions do not belong together;
-- it fails and changes nothing if the status is invalid, or is "sending_and_receiving" on an RS-485
-- or CAN interface; otherwise it succeeds, and this name alone has the new status.
pub set_status-Obeys :
    (is_up : Str → Bool) (m : Manager) (name status : Str)
    → is_this_interface_in_current_node m name ≡ true
    → (f : InterfaceInfo) × (o : Outcome) × (interface_at m (get_interface_index m name) ≡ some f)
      × (set_status is_up m (some name) (some status) ≡ some o)
      × Obeys m name status (verdict f status) o
set_status-Obeys is_up m name status h = elim (interface_at_lem m name) [
  | inr (absent, _) ↦ absurd (false≢true (sym absent ∙ h))
  | inl (_, (f, at, named)) ↦
      let s : get_interface_status m name ≡ some f.status = rw at at ((searches_agree m name).1) in
      set_status_at is_up m name status f h at s
]

by_kind_manager :
    (is_up : Str → Bool) (name status : Str) (m : Manager) (k : Kind)
    → ((by_kind is_up name status m k).manager ≡ m)
      ⊎ ((by_kind is_up name status m k).manager ≡ (set_interface_status m name status).1)
unfolding by_kind
by_kind_manager is_up name status m mixed = inl refl
by_kind_manager is_up name status m half_duplex =
    elim (Bool-cases (strcmp_eq status sending_and_receiving)) [
      | inl e ↦ rw e (inl refl)
      | inr e ↦ rw e (inr refl)
    ]
by_kind_manager is_up name status m full_duplex =
    elim (Bool-cases (ltb_ℤ (set_interface_status m name status).0 (pos 0))) [
      | inl e ↦ rw e (inr refl)
      | inr e ↦ rw e (inr refl)
    ]

-- The manager after `set_status` is the one before, or that of `set_interface_status`.
pub set_status_manager :
    (is_up : Str → Bool) (m : Manager) (name status : Str) (o : Outcome)
    → set_status is_up m (some name) (some status) ≡ some o
    → (o.manager ≡ m) ⊎ (o.manager ≡ (set_interface_status m name status).1)
unfolding set_status
set_status_manager is_up m name status o e = elim (interface_at_lem m name) [
  | inr (_, at) ↦
      let s : get_interface_status m name ≡ none = rw at at ((searches_agree m name).1) in
      ground (arith, s)
  | inl (_, (f, at, _)) ↦
      let s : get_interface_status m name ≡ some f.status = rw at at ((searches_agree m name).1) in
      let k = kind f.base_send_func f.base_receive_func in
      elim (Bool-cases (strcmp_eq f.status status)) [
        | inl same ↦
            let q : some (record { code = success; manager = m; commands = [] }) ≡ some o =
              rw (s, same) at e in
            inl (ap (λ (x : Outcome). x.manager) (sym (some-injective _ _ q)))
        | inr other ↦
            let q : some (by_kind is_up name status m k) ≡ some o =
              rw (s, other, change_status_lem is_up name status m f at) at e in
            subst
              (λ (x : Outcome).
                (x.manager ≡ m) ⊎ (x.manager ≡ (set_interface_status m name status).1))
              (some-injective _ _ q) (by_kind_manager is_up name status m k)
      ]
]

-- When the statuses are valid and `set_status` returns, the statuses are valid, whatever it was
-- asked for.
pub set_status-StatusesValid :
    (is_up : Str → Bool) (m : Manager) (name status : Option Str) (o : Outcome)
    → StatusesValid m
    → set_status is_up m name status ≡ some o
    → StatusesValid o.manager
unfolding set_status
set_status-StatusesValid is_up m none status o v e = ground arith
set_status-StatusesValid is_up m (some name) none o v e = ground arith
set_status-StatusesValid is_up m (some name) (some status) o v e =
    elim (set_status_manager is_up m name status o e) [
      | inl q ↦ subst StatusesValid (sym q) v
      | inr q ↦ subst StatusesValid (sym q) (set_interface_status-StatusesValid m name status v)
    ]
