-- ===== src/InfoManager/Interfaces/Names.antt =====
-- src/base/info_manager.c: the accessors by name against those by index.
use monitor_node.Prelude.{
  ℕ, zero, suc, ◌≡◌, refl, ◌≢◌, ◌<◌, inl, inr, Str, strcmp_eq, strcmp_eq-eq, strcmp_eq_refl, true,
  none, some, List, [], ◌∷◌, get_elem?, arith,
}
use monitor_node.InfoManager.Types.{Manager, InterfaceInfo}
use monitor_node.InfoManager.Interfaces.{get_interface_index, get_interface_mode_by_index}
use monitor_node.InfoManager.Interfaces.Search.{Absent, get_interface_index_lem}
use monitor_node.InfoManager.Interfaces.Parameters.{
  field_of, get_interface_mode, get_interface_type, get_interface_type_by_index,
}

field_of-first :
    (g : InterfaceInfo → Str) (name : Str) (fs : List InterfaceInfo) (i : ℕ) (f : InterfaceInfo)
    → get_elem? fs i ≡ some f
    → f.interface_name ≡ name
    → ((j : ℕ) (h : InterfaceInfo) → j < i → get_elem? fs j ≡ some h → h.interface_name ≢ name)
    → field_of g name fs ≡ some (g f)
unfolding field_of
field_of-first g name [] i f at named earlier = cc
field_of-first g name (e ∷ fs) zero f at named earlier =
    let s : strcmp_eq e.interface_name name ≡ true = ground (arith, strcmp_eq_refl name) in
    ground arith
field_of-first g name (e ∷ fs) (suc i) f at named earlier =
    let n : e.interface_name ≢ name = earlier 0 e (omega arith) refl in
    ground (
      arith,
      n,
      strcmp_eq-eq e.interface_name name,
      field_of-first g name fs i f at named (λ j h l. earlier (suc j) h (omega arith)),
    )

field_of-Absent :
    (g : InterfaceInfo → Str) (name : Str) (fs : List InterfaceInfo)
    → Absent name fs
    → field_of g name fs ≡ none
unfolding field_of
field_of-Absent g name [] p = refl
field_of-Absent g name (e ∷ fs) p =
    let n : e.interface_name ≢ name = p 0 e refl in
    ground
      (arith, n, strcmp_eq-eq e.interface_name name, field_of-Absent g name fs (λ j h. p (suc j) h))

-- The mode and the type by name are those at the name's index, and none for a name that is not in
-- this node.
pub accessors_agree :
    (m : Manager) (name : Str)
    → (get_interface_mode m name ≡ get_interface_mode_by_index m (get_interface_index m name))
      × (get_interface_type m name ≡ get_interface_type_by_index m (get_interface_index m name))
unfolding get_interface_mode get_interface_type
accessors_agree m name = elim (get_interface_index_lem m name) [
  | inl (i, e, p) ↦
      let at = λ (g : InterfaceInfo → Str).
        field_of-first g name m.interface_info_array i p.entry p.at p.named p.earlier in
      rw (e, p.at) (at (λ f. f.mode), at (λ f. f.interface_type))
  | inr (e, p) ↦
      let at = λ (g : InterfaceInfo → Str). field_of-Absent g name m.interface_info_array p in
      rw e (at (λ f. f.mode), at (λ f. f.interface_type))
]
