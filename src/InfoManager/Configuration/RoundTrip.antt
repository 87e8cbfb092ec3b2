-- ===== src/InfoManager/Configuration/RoundTrip.antt =====
-- The configuration of the interfaces of src/base/info_manager.c, written and read again.
use monitor_node.Prelude.{
  ℕ, suc, ◌<◌, ◌-◌, ◌≡◌, refl, ap, ◌∙◌, negsuc, eqb_ℤ, Str, Bool, true, false, Option, none, some,
  List, [], ◌∷◌, c_str, map, length, take_all, Bool-cases, inl, inr, All, if◌then◌else◌, ◌>>=◌,
  arith,
}
use monitor_node.InfoManager.Types.{EthInfo, CanInfo, Rs485Info, InterfaceInfo}
use monitor_node.InfoManager.Configuration.{
  eth_members, can_members, rs485_members, members, read_eth, read_can, read_rs485, read_interface,
  objects, write_interface_info_array_to_json, read_from, read_document,
  read_interface_info_array_from_split_json, buffer_size,
}
use monitor_node.InfoManager.Configuration.Items.{Cjson, number, view, add_members, array}
use monitor_node.InfoManager.Configuration.Objects.{Documented, same_name, find_leaf, find}
use monitor_node.InfoManager.Configuration.Views.{leaf_fields, member_view, view_lem}

-- What an entry that held `old` has of an interface that was written: nothing of an Ethernet interface
-- without a MAC address, of a CAN interface with the identifier -1, and of a serial line with the
-- baud rate -1; and neither of the descriptors and addresses of this run.
abbrev pub restored_eth : EthInfo → EthInfo → EthInfo
restored_eth e old = elim e.mac_addr [
  | none ↦ record old {
    ip_name = none;
    ip_addr = none;
    net_mask = none;
    mac_addr = none;
    port_id = negsuc 0;
  }
  | some mac ↦ record e { temporary_sockfd = old.temporary_sockfd; sock_addr = old.sock_addr }
]

abbrev pub restored_can : CanInfo → CanInfo
restored_can e =
    if eqb_ℤ e.can_id (negsuc 0) then record { can_id = negsuc 0; baud_rate = negsuc 0 } else e

abbrev pub restored_rs485 : Rs485Info → Rs485Info → Rs485Info
restored_rs485 e old =
    if eqb_ℤ e.baud_rate (negsuc 0)
    then record old {
      rs485_dev_path = none;
      rs485_gpio_number = negsuc 0;
      databits = negsuc 0;
      stopbits = negsuc 0;
      paritybits = 0;
      baud_rate = negsuc 0;
    }
    else record e { temporary_fd = old.temporary_fd }

abbrev pub restored : InterfaceInfo → InterfaceInfo → InterfaceInfo
restored f old = record f {
  eth_info = restored_eth f.eth_info old.eth_info;
  linked_eth_info = restored_eth f.linked_eth_info old.linked_eth_info;
  can_info = restored_can f.can_info;
  linked_can_info = restored_can f.linked_can_info;
  rs485_info = restored_rs485 f.rs485_info old.rs485_info;
  linked_rs485_info = restored_rs485 f.linked_rs485_info old.linked_rs485_info;
  initialized_flag = negsuc 0;
  last_work_time = old.last_work_time;
}

unfoldable pub restored_from : (ℕ → InterfaceInfo) → ℕ → List InterfaceInfo → List InterfaceInfo
restored_from old i [] = []
restored_from old i (f ∷ fs) = restored f (old i) ∷ restored_from old (suc i) fs

-- The parity bits are kept in an `unsigned char`.
abbrev pub FitsChar : InterfaceInfo → Type 0
FitsChar f = (f.rs485_info.paritybits < 256) × (f.linked_rs485_info.paritybits < 256)

-- A statement about a test holds if it does for both of its values.
case : (b : Bool) (P : Bool → Type 0) → P true → P false → P b
case true P t f = t
case false P t f = f

eth_lem :
    (e old : EthInfo) (ip_name ip_addr net_mask mac_addr : Option Str)
    → let e1 = record e {
      ip_name = ip_name;
      ip_addr = ip_addr;
      net_mask = net_mask;
      mac_addr = mac_addr;
    } in
      read_eth (some (leaf_fields (eth_members e1))) old ≡ restored_eth e1 old
unfolding find_leaf same_name
eth_lem e old n a k none = refl
eth_lem e old none none none (some m) = refl
eth_lem e old none none (some k) (some m) = refl
eth_lem e old none (some a) none (some m) = refl
eth_lem e old none (some a) (some k) (some m) = refl
eth_lem e old (some n) none none (some m) = refl
eth_lem e old (some n) none (some k) (some m) = refl
eth_lem e old (some n) (some a) none (some m) = refl
eth_lem e old (some n) (some a) (some k) (some m) = refl

can_lem : (e : CanInfo) → read_can (some (leaf_fields (can_members e))) ≡ restored_can e
unfolding find_leaf same_name
can_lem e =
    case (eqb_ℤ e.can_id (negsuc 0))
      (λ b.
        read_can (
          some (
            leaf_fields (
              if b
              then []
              else (c_str "can_id", number e.can_id)
                ∷ (c_str "baud_rate", number e.baud_rate)
                ∷ [])))
        ≡ (if b then record { can_id = negsuc 0; baud_rate = negsuc 0 } else e))
      refl refl

module _ (c : Cjson) (d : Documented c) where
  rs485_lem :
      (e old : Rs485Info) (path : Option Str)
      → e.paritybits < 256
      → let e1 = record e { rs485_dev_path = path } in
        read_rs485 c (some (leaf_fields (rs485_members e1))) old ≡ restored_rs485 e1 old
  unfolding find_leaf same_name
  rs485_lem e old none h = elim (Bool-cases (eqb_ℤ e.baud_rate (negsuc 0))) [
    | inl t ↦ rw (t, d.unsigned_char_lem 0 (omega arith)) refl
    | inr t ↦ rw (t, d.unsigned_char_lem e.paritybits h) refl
  ]
  rs485_lem e old (some path) h = elim (Bool-cases (eqb_ℤ e.baud_rate (negsuc 0))) [
    | inl t ↦ rw (t, d.unsigned_char_lem 0 (omega arith)) refl
    | inr t ↦ rw (t, d.unsigned_char_lem e.paritybits h) refl
  ]

  eth_restored :
      (e old : EthInfo) → read_eth (some (leaf_fields (eth_members e))) old ≡ restored_eth e old
  eth_restored e old = eth_lem e old e.ip_name e.ip_addr e.net_mask e.mac_addr

  rs485_restored :
      (e old : Rs485Info)
      → e.paritybits < 256
      → read_rs485 c (some (leaf_fields (rs485_members e))) old ≡ restored_rs485 e old
  rs485_restored e old h = rs485_lem e old e.rs485_dev_path h

  interface_lem :
      (f old : InterfaceInfo)
      → FitsChar f
      → read_interface c (member_view (members f)) old ≡ some (restored f old)
  unfolding find same_name
  interface_lem f old (h, h1) =
      rw
        (
          eth_restored f.eth_info old.eth_info,
          eth_restored f.linked_eth_info old.linked_eth_info,
          can_lem f.can_info,
          can_lem f.linked_can_info,
          rs485_restored f.rs485_info old.rs485_info h,
          rs485_restored f.linked_rs485_info old.linked_rs485_info h1,
        )
        refl

  interface-made :
      (f old : InterfaceInfo)
      → FitsChar f
      → read_interface c (view c (add_members c d.empty (members f))) old ≡ some (restored f old)
  interface-made f old h =
      ap (λ v. read_interface c v old) (view_lem c d (members f)) ∙ interface_lem f old h

  -- The objects of the interfaces.
  abbrev pub made : List InterfaceInfo → List c.Item
  made = map λ f. add_members c d.empty (members f)

  -- The document is printed to a text that fits in the buffer of the reader and that the parser takes
  -- back to it.
  pub record Prints (os : List c.Item) : Type 0 where
    pub text : Str
    pub printed : c.print os ≡ some text
    pub short : length text < buffer_size
    pub parsed : c.parse text ≡ array os

  objects-made : (fs : List InterfaceInfo) → objects c fs ≡ some (made fs)
  unfolding objects
  objects-made [] = refl
  objects-made (f ∷ fs) = rw (d.created, objects-made fs) refl

  read_from-made :
      (old : ℕ → InterfaceInfo) (i : ℕ) (fs : List InterfaceInfo)
      → All FitsChar fs
      → read_from c old i (made fs) ≡ some (restored_from old i fs)
  unfolding read_from restored_from
  read_from-made old i [] a = refl
  read_from-made old i (f ∷ fs) (h, a) =
      ap (λ x. x >>= λ g. read_from c old (suc i) (made fs) >>= λ gs. some (g ∷ gs))
        (interface-made f (old i) h)
      ∙ ap (λ x. x >>= λ gs. some (restored f (old i) ∷ gs)) (read_from-made old (suc i) fs a)

  -- cJSON's functions do what is documented of them. A table of interfaces, whose parity bits fit in a
  -- byte, is written to a file that opens, and its document is printed to a text that fits in the
  -- buffer of the reader and is parsed back to it. Then the writer writes that text, and the reader, on
  -- it, fills the entries with all that was written of the interfaces, marked as closed, except that
  -- an Ethernet part without a MAC address, a CAN part with the identifier -1 and a serial part with
  -- the baud rate -1 come back unset; the descriptors, socket addresses and times of last work stay as
  -- the entries held them.
  pub read-write :
      (old : ℕ → InterfaceInfo) (fs : List InterfaceInfo)
      → All FitsChar fs
      → (p : Prints (made fs))
      → (write_interface_info_array_to_json c true fs ≡ some p.text)
        × (read_interface_info_array_from_split_json c old p.text
            ≡ some (some (restored_from old 0 fs)))
  unfolding write_interface_info_array_to_json read_interface_info_array_from_split_json
  read-write old fs a p =
      let short = p.short in
      (
        rw (objects-made fs, p.printed) refl,
        ap (read_document c old)
              (ap c.parse (take_all (buffer_size - 1) p.text (omega arith)) ∙ p.parsed)
            ∙ ap (λ x. x >>= λ gs. some (some gs)) (read_from-made old 0 fs a),
      )
