-- ===== src/InfoManager/Start/Laws.antt =====
-- What the tables hold after the start of src/base/info_manager.c.
use monitor_node.Prelude.{
  ℕ, suc, ◌≡◌, refl, ap, inl, inr, success, Str, c_str, strcmp_eq, Bool-cases, List, [], ◌∷◌, map,
  All, arith, if◌then◌else◌,
}
use monitor_node.InfoManager.Types.{Manager, InterfaceInfo, CommunicationInfo}
use monitor_node.InfoManager.Json.{Platform}
use monitor_node.InfoManager.Legal.{
  check_all_send_base_func_legal, check_all_recv_base_func_legal, check_single_send_base_func_legal,
  first_refused,
}
use monitor_node.InfoManager.Legal.Laws.{KnowsSender, check_all_recv-head}
use monitor_node.InfoManager.Start.{
  Boot, initial_results, with_sock_addrs, start_info_manager_from_split_json,
}

-- The names of the interfaces that listen, in order.
abbrev pub listening : List InterfaceInfo → List Str
listening [] = []
listening (f ∷ fs) =
    if strcmp_eq f.mode (c_str "listen") then f.interface_name ∷ listening fs else listening fs

-- The result of an interface that was not heard of yet.
abbrev pub IsInitial : CommunicationInfo → Type 0
IsInitial c = (c.tx ≡ 20) × (c.rx ≡ 0)

initial_results-names :
    (b : Boot) (i j : ℕ) (fs : List InterfaceInfo)
    → map (λ c. c.interface_name) (initial_results b i (with_sock_addrs b j fs)) ≡ listening fs
unfolding initial_results with_sock_addrs
initial_results-names b i j [] = refl
initial_results-names b i j (f ∷ fs) = elim (Bool-cases (strcmp_eq f.mode (c_str "listen"))) [
  | inl e ↦ elim (Bool-cases (strcmp_eq f.interface_type (c_str "eth"))) [
    | inl k ↦
        rw (k, e) (ap (λ t. f.interface_name ∷ t) (initial_results-names b (suc i) (suc j) fs))
    | inr k ↦
        rw (k, e) (ap (λ t. f.interface_name ∷ t) (initial_results-names b (suc i) (suc j) fs))
  ]
  | inr e ↦ elim (Bool-cases (strcmp_eq f.interface_type (c_str "eth"))) [
    | inl k ↦ rw (k, e) (initial_results-names b i (suc j) fs)
    | inr k ↦ rw (k, e) (initial_results-names b i (suc j) fs)
  ]
]

initial_results-IsInitial :
    (b : Boot) (i : ℕ) (fs : List InterfaceInfo) → All IsInitial (initial_results b i fs)
unfolding initial_results
initial_results-IsInitial b i [] = tt
initial_results-IsInitial b i (f ∷ fs) = elim (Bool-cases (strcmp_eq f.mode (c_str "listen"))) [
  | inl e ↦ rw e ((refl, refl), initial_results-IsInitial b (suc i) fs)
  | inr e ↦ rw e (initial_results-IsInitial b i fs)
]

names-with_sock_addrs :
    (b : Boot) (i : ℕ) (fs : List InterfaceInfo)
    → map (λ f. f.interface_name) (with_sock_addrs b i fs) ≡ map (λ f. f.interface_name) fs
unfolding with_sock_addrs
names-with_sock_addrs b i [] = refl
names-with_sock_addrs b i (f ∷ fs) = ground (arith, names-with_sock_addrs b (suc i) fs)

with_sock_addrs-KnowsSender :
    (b : Boot) (i : ℕ) (fs : List InterfaceInfo)
    → All KnowsSender fs
    → All KnowsSender (with_sock_addrs b i fs)
unfolding with_sock_addrs
with_sock_addrs-KnowsSender b i [] h = tt
with_sock_addrs-KnowsSender b i (f ∷ fs) (k, h) =
    elim (Bool-cases (strcmp_eq f.interface_type (c_str "eth"))) [
      | inl e ↦ rw e (k, with_sock_addrs-KnowsSender b (suc i) fs h)
      | inr e ↦ rw e (k, with_sock_addrs-KnowsSender b (suc i) fs h)
    ]

send_check_passes :
    (k : ℕ) (fs : List InterfaceInfo)
    → All KnowsSender fs
    → first_refused check_single_send_base_func_legal k fs ≡ success
unfolding first_refused check_single_send_base_func_legal
send_check_passes k [] h = refl
send_check_passes k (f ∷ fs) (a, h) = rw a (send_check_passes (suc k) fs h)

recv_check_passes :
    (b : Boot) (f : InterfaceInfo) (fs : List InterfaceInfo)
    → All KnowsSender (f ∷ fs)
    → check_all_recv_base_func_legal (with_sock_addrs b 0 (f ∷ fs)) ≡ success
unfolding with_sock_addrs
recv_check_passes b f fs h = check_all_recv-head _ _ (with_sock_addrs-KnowsSender b 0 (f ∷ fs) h).0

-- A configuration with one interface or more whose send functions are all known is accepted: the
-- table has its interfaces, by name, and there is one result for each interface that listens, in
-- order, with 20 packages sent and none received.
pub start_info_manager_lem :
    (p : Platform) (b : Boot) (f : InterfaceInfo) (fs : List InterfaceInfo) (m : Manager)
    → All KnowsSender (f ∷ fs)
    → let m' = start_info_manager_from_split_json p b (f ∷ fs) m in
      (map (λ g. g.interface_name) m'.interface_info_array ≡ map (λ g. g.interface_name) (f ∷ fs))
      × (map (λ c. c.interface_name) m'.communication_info_array ≡ listening (f ∷ fs))
      × All IsInitial m'.communication_info_array
unfolding start_info_manager_from_split_json check_all_send_base_func_legal
start_info_manager_lem p b f fs m h =
    rw
      (
        recv_check_passes b f fs h,
        send_check_passes 0 (with_sock_addrs b 0 (f ∷ fs))
            (with_sock_addrs-KnowsSender b 0 (f ∷ fs) h),
      )
      (
        names-with_sock_addrs b 0 (f ∷ fs),
        initial_results-names b 0 0 (f ∷ fs),
        initial_results-IsInitial b 0 (with_sock_addrs b 0 (f ∷ fs)),
      )
