-- ===== src/InfoManager/Configuration.antt =====
-- src/base/info_manager.c: the configuration of the interfaces as JSON, written and read. cJSON is the
-- interface `Cjson`: its items, the functions that are called on them, and its printer and parser.
pub mod Items
pub mod Objects
pub mod Views
pub mod RoundTrip
use monitor_node.Prelude.{
  ℕ, suc, ◌-◌, take, ℤ, pos, negsuc, eqb_ℤ, Str, c_str, Bool, true, false, Option, none, some, List,
  [], ◌∷◌, map, if◌then◌else◌, ◌>>=◌,
}
use monitor_node.InfoManager.Types.{EthInfo, CanInfo, Rs485Info, InterfaceInfo}
use monitor_node.InfoManager.Configuration.Items.{
  Cjson, Leaf, text, number, Member, leaf, nested, add_leaves, add_members, Fields, View, view,
  Parsed, array, not_array, unparsable,
}

-- The objects "eth_info" and "linked_eth_info": empty without a MAC address.
abbrev pub eth_members : EthInfo → List (Str × Leaf)
eth_members e = elim e.mac_addr [
  | none ↦ []
  | some mac ↦
      (c_str "ip_addr", text e.ip_addr)
      ∷ (c_str "net_mask", text e.net_mask)
      ∷ (c_str "mac_addr", text (some mac))
      ∷ (c_str "ip_name", text e.ip_name)
      ∷ (c_str "port_id", number e.port_id)
      ∷ []
]

-- The objects "can_info" and "linked_can_info": empty for the identifier -1.
abbrev pub can_members : CanInfo → List (Str × Leaf)
can_members e =
    if eqb_ℤ e.can_id (negsuc 0)
    then []
    else (c_str "can_id", number e.can_id) ∷ (c_str "baud_rate", number e.baud_rate) ∷ []

-- The objects "rs485_info" and "linked_rs485_info": empty for the baud rate -1.
abbrev pub rs485_members : Rs485Info → List (Str × Leaf)
rs485_members e =
    if eqb_ℤ e.baud_rate (negsuc 0)
    then []
    else (c_str "rs485_gpio_number", number e.rs485_gpio_number)
      ∷ (c_str "databits", number e.databits)
      ∷ (c_str "stopbits", number e.stopbits)
      ∷ (c_str "paritybits", number (pos e.paritybits))
      ∷ (c_str "baud_rate", number e.baud_rate)
      ∷ (c_str "rs485_dev_path", text e.rs485_dev_path)
      ∷ []

-- The members that are added to the object of an interface, in order.
abbrev pub members : InterfaceInfo → List (Str × Member)
members f =
    (c_str "located_node", leaf (text (some f.located_node)))
    ∷ (c_str "interface_name", leaf (text (some f.interface_name)))
    ∷ (c_str "interface_type", leaf (text (some f.interface_type)))
    ∷ (c_str "linked_node", leaf (text (some f.linked_node)))
    ∷ (c_str "linked_interface_name", leaf (text (some f.linked_interface_name)))
    ∷ (c_str "linked_interface_type", leaf (text (some f.linked_interface_type)))
    ∷ (c_str "center_interface_name", leaf (text (some f.center_interface_name)))
    ∷ (c_str "status_chooser", leaf (text (some f.status_chooser)))
    ∷ (c_str "base_send_func", leaf (text (some f.base_send_func)))
    ∷ (c_str "base_receive_func", leaf (text (some f.base_receive_func)))
    ∷ (c_str "msg_generator_of_sender", leaf (text (some f.msg_generator_of_sender)))
    ∷ (c_str "initializer_name", leaf (text (some f.initializer_name)))
    ∷ (c_str "closer_name", leaf (text (some f.closer_name)))
    ∷ (c_str "eth_info", nested (eth_members f.eth_info))
    ∷ (c_str "linked_eth_info", nested (eth_members f.linked_eth_info))
    ∷ (c_str "can_info", nested (can_members f.can_info))
    ∷ (c_str "linked_can_info", nested (can_members f.linked_can_info))
    ∷ (c_str "rs485_info", nested (rs485_members f.rs485_info))
    ∷ (c_str "linked_rs485_info", nested (rs485_members f.linked_rs485_info))
    ∷ (c_str "mode", leaf (text (some f.mode)))
    ∷ (c_str "status", leaf (text (some f.status)))
    ∷ (c_str "duplex", leaf (text (some f.duplex)))
    ∷ []

-- What the two readers of an object store for a number that is missing, and for the object that is
-- missing.
abbrev pub int_or : ℤ → Option ℤ → ℤ
int_or d none = d
int_or d (some n) = n

abbrev pub no_fields : Fields
no_fields = record { text = λ k. none; number = λ k. none }

abbrev pub fields_or : Option Fields → Fields
fields_or none = no_fields
fields_or (some v) = v

-- `old` is what the entry held: its socket and its address are not set.
abbrev pub read_eth : Option Fields → EthInfo → EthInfo
read_eth o old =
    let v = fields_or o in
    record old {
      ip_name = v.text (c_str "ip_name");
      ip_addr = v.text (c_str "ip_addr");
      net_mask = v.text (c_str "net_mask");
      mac_addr = v.text (c_str "mac_addr");
      port_id = int_or (negsuc 0) (v.number (c_str "port_id"));
    }

abbrev pub read_can : Option Fields → CanInfo
read_can o =
    let v = fields_or o in
    record {
      can_id = int_or (negsuc 0) (v.number (c_str "can_id"));
      baud_rate = int_or (negsuc 0) (v.number (c_str "baud_rate"));
    }

-- `BUFFER_SIZE`
abbrev pub buffer_size : ℕ
buffer_size = 40000

module _ (c : Cjson) where
  -- `old` is what the entry held: its descriptor is not set.
  abbrev pub read_rs485 : Option Fields → Rs485Info → Rs485Info
  read_rs485 o old =
      let v = fields_or o in
      record old {
        rs485_dev_path = v.text (c_str "rs485_dev_path");
        rs485_gpio_number = int_or (negsuc 0) (v.number (c_str "rs485_gpio_number"));
        baud_rate = int_or (negsuc 0) (v.number (c_str "baud_rate"));
        databits = int_or (negsuc 0) (v.number (c_str "databits"));
        stopbits = int_or (negsuc 0) (v.number (c_str "stopbits"));
        paritybits = c.unsigned_char (int_or (pos 0) (v.number (c_str "paritybits")));
      }

  -- One turn of the loop: `none` for a string that is missing, which is read through a null pointer.
  abbrev pub read_interface : View → InterfaceInfo → Option InterfaceInfo
  read_interface v old = v.text (c_str "located_node") >>= λ located_node'.
      v.text (c_str "interface_name") >>= λ interface_name'.
      v.text (c_str "interface_type") >>= λ interface_type'.
      v.text (c_str "linked_node") >>= λ linked_node'.
      v.text (c_str "linked_interface_name") >>= λ linked_interface_name'.
      v.text (c_str "linked_interface_type") >>= λ linked_interface_type'.
      v.text (c_str "center_interface_name") >>= λ center_interface_name'.
      v.text (c_str "status_chooser") >>= λ status_chooser'.
      v.text (c_str "base_send_func") >>= λ base_send_func'.
      v.text (c_str "base_receive_func") >>= λ base_receive_func'.
      v.text (c_str "msg_generator_of_sender") >>= λ msg_generator_of_sender'.
      v.text (c_str "initializer_name") >>= λ initializer_name'.
      v.text (c_str "closer_name") >>= λ closer_name'. v.text (c_str "status") >>= λ status'.
      v.text (c_str "mode") >>= λ mode'. v.text (c_str "duplex") >>= λ duplex'. some record {
        mode = mode';
        located_node = located_node';
        interface_name = interface_name';
        interface_type = interface_type';
        linked_node = linked_node';
        linked_interface_name = linked_interface_name';
        linked_interface_type = linked_interface_type';
        center_interface_name = center_interface_name';
        status_chooser = status_chooser';
        base_send_func = base_send_func';
        base_receive_func = base_receive_func';
        msg_generator_of_sender = msg_generator_of_sender';
        initializer_name = initializer_name';
        closer_name = closer_name';
        eth_info = read_eth (v.object (c_str "eth_info")) old.eth_info;
        linked_eth_info = read_eth (v.object (c_str "linked_eth_info")) old.linked_eth_info;
        can_info = read_can (v.object (c_str "can_info"));
        linked_can_info = read_can (v.object (c_str "linked_can_info"));
        rs485_info = read_rs485 (v.object (c_str "rs485_info")) old.rs485_info;
        linked_rs485_info = read_rs485 (v.object (c_str "linked_rs485_info")) old.linked_rs485_info;
        status = status';
        duplex = duplex';
        initialized_flag = negsuc 0;
        last_work_time = old.last_work_time;
      }

  -- The objects of the interfaces; `none` where the heap has no room for one.
  unfoldable pub objects : List InterfaceInfo → Option (List c.Item)
  objects [] = some []
  objects (f ∷ fs) =
      c.create_object >>= λ o. objects fs >>= λ os. some (add_members c o (members f) ∷ os)

  -- The text that the file `filename` holds afterwards; `none` if it is left as it was. `opened`
  -- tells whether `fopen` opens it.
  unfoldable pub write_interface_info_array_to_json : Bool → List InterfaceInfo → Option Str
  write_interface_info_array_to_json opened fs =
      objects fs >>= λ os. c.print os >>= λ rendered. if opened then some rendered else none

  -- The loop of the reader from entry `i` on; `old` is what the entries held. The caller has counted the
  -- objects, and there is an entry for each of them.
  unfoldable pub read_from : (ℕ → InterfaceInfo) → ℕ → List c.Item → Option (List InterfaceInfo)
  read_from old i [] = some []
  read_from old i (o ∷ os) =
      read_interface (view c o) (old i) >>= λ f. read_from old (suc i) os >>= λ fs. some (f ∷ fs)

  -- The first `none` is a fault; with the second one, no entry is set.
  abbrev pub read_document :
      (ℕ → InterfaceInfo) → Parsed c.Item → Option (Option (List InterfaceInfo))
  read_document old unparsable = some none
  read_document old not_array = some none
  read_document old (array os) = read_from old 0 os >>= λ fs. some (some fs)

  -- The entries that are read from the text of a file that `fopen` opened; of it, `BUFFER_SIZE - 1`
  -- bytes are read.
  unfoldable pub read_interface_info_array_from_split_json :
      (ℕ → InterfaceInfo) → Str → Option (Option (List InterfaceInfo))
  read_interface_info_array_from_split_json old file =
      read_document old (c.parse (take (buffer_size - 1) file))
