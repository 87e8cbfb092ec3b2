-- ===== src/OneInterface/Choose/Laws.antt =====
-- src/one_interface_operator.c: which interface of a node syncs its results.
use monitor_node.Prelude.{
  ◌≡◌, refl, sym, ◌∙◌, ap, ℤ, Str, strcmp_eq, strcmp_eq-eq, Bool, true, false, Option, none, some,
  arith, if◌then◌else◌,
}
use mathlib.Core.Option.{some-injective}
use monitor_node.InfoManager.{Manager, InterfaceInfo}
use monitor_node.InfoManager.Interfaces.{
  interface_at, is_this_interface_in_current_node, get_interface_name_by_linked_interface_name,
}
use monitor_node.OneInterface.Choose.{
  Operation, download_all_communication_infos_locally, do_nothing_with_the_communication_infos,
  sync_the_communication_infos, choose_communication_info_operation_at_specified_interface,
}

-- The decision of an interface whose entry is known.
abbrev decision : Bool → Option Str → Str → Operation
decision local linked name =
    if local then download_all_communication_infos_locally else elim linked [
      | none ↦ do_nothing_with_the_communication_infos
      | some l ↦
          if strcmp_eq name l
          then sync_the_communication_infos
          else do_nothing_with_the_communication_infos
    ]

decision_sync :
    (local : Bool) (linked : Option Str) (name : Str)
    → some (decision local linked name) ≡ some sync_the_communication_infos
    → (local ≡ false) × (linked ≡ some name)
decision_sync true linked name e = ground arith
decision_sync false none name e = ground arith
decision_sync false (some l) name e = (refl, ground (arith, strcmp_eq-eq name l))

-- An interface syncs only if its center interface is on another node and it is the first interface
-- of this node whose link leads there. So two interfaces with the same center that both sync have
-- the same name.
pub sync_unique :
    (m : Manager) (i j : ℤ) (f g : InterfaceInfo)
    → interface_at m i ≡ some f
    → interface_at m j ≡ some g
    → f.center_interface_name ≡ g.center_interface_name
    → choose_communication_info_operation_at_specified_interface m i
      ≡ some sync_the_communication_infos
    → choose_communication_info_operation_at_specified_interface m j
      ≡ some sync_the_communication_infos
    → (is_this_interface_in_current_node m f.center_interface_name ≡ false)
      × (get_interface_name_by_linked_interface_name m f.center_interface_name
          ≡ some f.interface_name)
      × (f.interface_name ≡ g.interface_name)
unfolding choose_communication_info_operation_at_specified_interface
sync_unique m i j f g at_i at_j c p q =
    let (a, b) = decision_sync _ _ _ (rw at_i at p) in
    let (a', b') = decision_sync _ _ _ (rw at_j at q) in
    (a, b, some-injective _ _ (sym b ∙ ap (get_interface_name_by_linked_interface_name m) c ∙ b'))
