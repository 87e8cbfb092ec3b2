-- ===== src/Firmware/Status/Kinds.antt =====
-- src/firmware.c: of the six blocks of `set_status` at most one applies to an interface.
use monitor_node.Prelude.{
  ◌≡◌, sym, ap, subst, inl, inr, error, success, pos, ltb_ℤ, Str, c_str, strcmp_eq, strcmp_eq-eq,
  Bool, true, false, ◌&&◌, some, [], arith, Bool-cases, if◌then◌else◌,
}
use monitor_node.InfoManager.{Manager, InterfaceInfo}
use monitor_node.InfoManager.Interfaces.{get_interface_index, interface_at}
use monitor_node.InfoManager.Status.{set_interface_status}
use monitor_node.InfoManager.Status.Laws.{}
use monitor_node.Firmware.Status.{
  sending_and_receiving, Outcome, finish, link_commands, blocks, change_status,
}

-- How the two function names of an interface go together.
pub data Kind : Type 0 where
  half_duplex full_duplex mixed : Kind

abbrev pub kind : Str → Str → Kind
kind s r =
    if strcmp_eq s (c_str "send_packet_rs485") && strcmp_eq r (c_str "receive_packet_rs485")
    then half_duplex
    else if strcmp_eq s (c_str "send_packet_by_mac_addr")
        && strcmp_eq r (c_str "receive_packet_by_mac_addr")
    then full_duplex
    else if strcmp_eq s (c_str "send_packet_by_ip_addr")
        && strcmp_eq r (c_str "receive_packet_by_ip_addr")
    then full_duplex
    else if strcmp_eq s (c_str "send_packet_xy") && strcmp_eq r (c_str "receive_packet_xy")
    then full_duplex
    else if strcmp_eq s (c_str "send_packet_can_fpu")
        && strcmp_eq r (c_str "receive_packet_can_fpu")
    then half_duplex
    else if strcmp_eq s (c_str "send_packet_can_gpu")
        && strcmp_eq r (c_str "receive_packet_can_gpu")
    then half_duplex
    else mixed

module _ (is_up : Str → Bool) (name status : Str) (m : Manager) where
  -- The block of the kind.
  unfoldable pub by_kind : Kind → Outcome
  by_kind mixed = record { code = success; manager = m; commands = [] }
  by_kind half_duplex =
      let (code, m') = set_interface_status m name status in
      if strcmp_eq status sending_and_receiving
      then record { code = error; manager = m; commands = [] }
      else record {
        code = if ltb_ℤ code (pos 0) then error else success;
        manager = m';
        commands = [];
      }
  by_kind full_duplex =
      let (code, m') = set_interface_status m name status in
      if ltb_ℤ code (pos 0) then record { code = error; manager = m'; commands = [] } else record {
        code = success;
        manager = m';
        commands = link_commands is_up name status (c_str "") (c_str "");
      }

  abbrev Agrees : Str → Str → Type 0
  Agrees r s = finish (blocks is_up name status s r m) ≡ by_kind (kind s r)

  Agrees-literals :
      (r : Str)
      → Agrees r (c_str "send_packet_rs485")
        × Agrees r (c_str "send_packet_by_mac_addr")
        × Agrees r (c_str "send_packet_by_ip_addr")
        × Agrees r (c_str "send_packet_xy")
        × Agrees r (c_str "send_packet_can_fpu")
        × Agrees r (c_str "send_packet_can_gpu")
  unfolding blocks by_kind strcmp_eq
  Agrees-literals r =
      (ground arith, ground arith, ground arith, ground arith, ground arith, ground arith)

  Agrees-at : (r s lit : Str) → Agrees r lit → strcmp_eq s lit ≡ true → Agrees r s
  Agrees-at r s lit a e = subst (Agrees r) (sym (strcmp_eq-eq s lit e)) a

  Agrees-rest :
      (r s : Str)
      → strcmp_eq s (c_str "send_packet_rs485") ≡ false
      → strcmp_eq s (c_str "send_packet_by_mac_addr") ≡ false
      → strcmp_eq s (c_str "send_packet_by_ip_addr") ≡ false
      → strcmp_eq s (c_str "send_packet_xy") ≡ false
      → strcmp_eq s (c_str "send_packet_can_fpu") ≡ false
      → strcmp_eq s (c_str "send_packet_can_gpu") ≡ false
      → Agrees r s
  unfolding blocks by_kind
  Agrees-rest r s n1 n2 n3 n4 n5 n6 = ground arith

  -- At most one of the six blocks runs.
  blocks-by_kind : (s r : Str) → Agrees r s
  blocks-by_kind s r =
      let a = Agrees-literals r in
      elim (Bool-cases (strcmp_eq s (c_str "send_packet_rs485"))) [
        | inl e ↦ Agrees-at r s _ a.0 e
        | inr n1 ↦ elim (Bool-cases (strcmp_eq s (c_str "send_packet_by_mac_addr"))) [
          | inl e ↦ Agrees-at r s _ a.1 e
          | inr n2 ↦ elim (Bool-cases (strcmp_eq s (c_str "send_packet_by_ip_addr"))) [
            | inl e ↦ Agrees-at r s _ a.2 e
            | inr n3 ↦ elim (Bool-cases (strcmp_eq s (c_str "send_packet_xy"))) [
              | inl e ↦ Agrees-at r s _ a.3 e
              | inr n4 ↦ elim (Bool-cases (strcmp_eq s (c_str "send_packet_can_fpu"))) [
                | inl e ↦ Agrees-at r s _ a.4 e
                | inr n5 ↦ elim (Bool-cases (strcmp_eq s (c_str "send_packet_can_gpu"))) [
                  | inl e ↦ Agrees-at r s _ a.5 e
                  | inr n6 ↦ Agrees-rest r s n1 n2 n3 n4 n5 n6
                ]
              ]
            ]
          ]
        ]
      ]

  -- What is asked of an interface that is there, with another status.
  pub change_status_lem :
      (f : InterfaceInfo)
      → interface_at m (get_interface_index m name) ≡ some f
      → change_status is_up m name status
        ≡ some (by_kind (kind f.base_send_func f.base_receive_func))
  unfolding change_status
  change_status_lem f e = rw e (ap some (blocks-by_kind f.base_send_func f.base_receive_func))
