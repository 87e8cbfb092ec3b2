-- ===== src/InfoManager/Start.antt =====
-- src/base/info_manager.c: `start_info_manager_from_split_json`, from the interfaces that the reader
-- of the configuration made. What the heap gives, and the clock, is the record `Boot`.
pub mod Laws
use monitor_node.Prelude.{
  ℕ, suc, ℤ, pos, ltb_ℤ, eqb_ℤ, success, Str, c_str, strcmp_eq, Option, none, some, List, [], ◌∷◌,
  if◌then◌else◌,
}
use monitor_node.InfoManager.Types.{Manager, InterfaceInfo, CommunicationInfo}
use monitor_node.InfoManager.Json.{Platform, string_to_time_t}
use monitor_node.InfoManager.Legal.{check_all_send_base_func_legal, check_all_recv_base_func_legal}

-- `clock`, `rounds` and `flags` are indexed by the result: when it is made, and what its two
-- members hold that the code does not set. `sock_addrs` are addresses for the interfaces.
pub record Boot : Type 0 where
  pub clock : ℕ → ℤ
  pub rounds : ℕ → ℤ
  pub flags : ℕ → ℤ
  pub sock_addrs : ℕ → ℕ

-- `TEST_BEIGIN_TIME`
abbrev pub test_begin_text : Str
test_begin_text = c_str "Tue Aug 26 18:31:15 2024"

abbrev pub initial_result : Boot → ℕ → InterfaceInfo → CommunicationInfo
initial_result b i f = record {
  linked_node = f.linked_node;
  interface_name = f.interface_name;
  updated_time = b.clock i;
  tx = 20;
  rx = 0;
  current_round = b.rounds i;
  if_newest_flag = b.flags i;
}

-- The loop that makes the results; `c_i` of them are made already.
unfoldable pub initial_results : Boot → ℕ → List InterfaceInfo → List CommunicationInfo
initial_results b c_i [] = []
initial_results b c_i (f ∷ fs) =
    let made = initial_result b c_i f ∷ initial_results b (suc c_i) fs in
    let skipped = initial_results b c_i fs in
    if strcmp_eq f.mode (c_str "listen") then made else skipped

-- The loop that gives the Ethernet interfaces their socket addresses.
unfoldable pub with_sock_addrs : Boot → ℕ → List InterfaceInfo → List InterfaceInfo
with_sock_addrs b i [] = []
with_sock_addrs b i (f ∷ fs) =
    (if strcmp_eq f.interface_type (c_str "eth")
      then record f { eth_info = record f.eth_info { sock_addr = some (b.sock_addrs i) } }
      else f)
    ∷ with_sock_addrs b (suc i) fs

-- `memoried` is the static counter of the batches. A refused table is freed: no interface is left,
-- and the results stay as they were.
unfoldable pub start_info_manager_from_split_json :
    Platform → Boot → List InterfaceInfo → Manager → Manager
start_info_manager_from_split_json p b interfaces m =
    let (ret, stored) = string_to_time_t p test_begin_text in
    let begin : ℤ = (elim stored [ none ↦ m.test_begin_time | some t ↦ t ]) in
    let table = with_sock_addrs b 0 interfaces in
    let refused = record m {
      interface_info_array = [];
      test_begin_time = if eqb_ℤ ret success then begin else pos 0;
    } in
    let started = record m {
      interface_info_array = table;
      communication_info_array = initial_results b 0 table;
      test_begin_time = if eqb_ℤ ret success then begin else pos 0;
    } in
    if ltb_ℤ (check_all_recv_base_func_legal table) (pos 0)
    then refused
    else if ltb_ℤ (check_all_send_base_func_legal table) (pos 0)
    then refused
    else started
