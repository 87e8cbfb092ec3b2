-- ===== src/InfoManager/Legal/Laws.antt =====
-- What the checks of the configured function names report, and what they miss.
use monitor_node.Prelude.{
  ℕ, zero, suc, ◌+◌, ◌<◌, ◌≡◌, refl, ◌∙◌, ◌⊎◌, inl, inr, error, success, neg_ℕ, strcmp_eq, name_in,
  name_in-disjoint, true, false, some, List, [], ◌∷◌, get_elem?, All, arith, Bool-cases,
}
use monitor_node.InfoManager.Types.{InterfaceInfo}
use monitor_node.InfoManager.Legal.{
  send_func_name_array, recv_func_name_array, check_single_send_base_func_legal,
  check_single_recv_base_func_legal, first_refused, check_all_send_base_func_legal,
  check_all_recv_base_func_legal,
}

abbrev pub KnowsSender : InterfaceInfo → Type 0
KnowsSender f = name_in f.base_send_func send_func_name_array ≡ true

-- The entry at `i` is the first whose send function is unknown.
pub record IsFirstUnknown (fs : List InterfaceInfo) (i : ℕ) : Type 0 where
  pub entry : InterfaceInfo
  pub at : get_elem? fs i ≡ some entry
  pub unknown : name_in entry.base_send_func send_func_name_array ≡ false
  pub earlier : (j : ℕ) (g : InterfaceInfo) → j < i → get_elem? fs j ≡ some g → KnowsSender g

later :
    (f : InterfaceInfo) (fs : List InterfaceInfo) (i : ℕ)
    → KnowsSender f
    → IsFirstUnknown fs i
    → IsFirstUnknown (f ∷ fs) (suc i)
later f fs i k p = record { entry = p.entry; at = p.at; unknown = p.unknown; earlier = before }
  where
    before : (j : ℕ) (g : InterfaceInfo) → j < suc i → get_elem? (f ∷ fs) j ≡ some g → KnowsSender g
    before zero g h e = ground (arith, k)
    before (suc j) g h e = p.earlier j g (omega arith) e

refused_cases :
    (k : ℕ) (fs : List InterfaceInfo)
    → ((first_refused check_single_send_base_func_legal k fs ≡ success) × All KnowsSender fs)
      ⊎ ((i : ℕ) × (first_refused check_single_send_base_func_legal k fs ≡ neg_ℕ (k + i))
          × IsFirstUnknown fs i)
unfolding first_refused check_single_send_base_func_legal
refused_cases k [] = inl (refl, tt)
refused_cases k (f ∷ fs) = elim (Bool-cases (name_in f.base_send_func send_func_name_array)) [
  | inr bad ↦ inr (
    0,
    ground arith,
    record { entry = f; at = refl; unknown = bad; earlier = λ j g h. absurd (omega arith) },
  )
  | inl good ↦
      let e : first_refused check_single_send_base_func_legal k (f ∷ fs)
          ≡ first_refused check_single_send_base_func_legal (suc k) fs =
        rw good in
      elim (refused_cases (suc k) fs) [
        | inl (r, a) ↦ inl (e ∙ r, (good, a))
        | inr (i, r, p) ↦ inr (suc i, ground arith, later f fs i good p)
      ]
]

-- The check of the send functions gives 0 when all are known, and else minus the index of the first
-- interface whose function is unknown.
pub check_all_send_base_func_legal_lem :
    (fs : List InterfaceInfo)
    → ((check_all_send_base_func_legal fs ≡ success) × All KnowsSender fs)
      ⊎ ((i : ℕ) × (check_all_send_base_func_legal fs ≡ neg_ℕ i) × IsFirstUnknown fs i)
unfolding check_all_send_base_func_legal
check_all_send_base_func_legal_lem fs = elim (refused_cases 0 fs) [
  | inl a ↦ inl a
  | inr (i, e, p) ↦ inr (i, ground arith, p)
]

send_not_recv :
    (f : InterfaceInfo) → KnowsSender f → name_in f.base_send_func recv_func_name_array ≡ false
send_not_recv f k =
    name_in-disjoint f.base_send_func send_func_name_array recv_func_name_array
      (unfold name_in strcmp_eq in (refl, (refl, (refl, (refl, (refl, (refl, tt))))))) k

-- The check of the receive functions ends at the first interface when its send function is known.
pub check_all_recv-head :
    (g : InterfaceInfo) (gs : List InterfaceInfo)
    → KnowsSender g
    → check_all_recv_base_func_legal (g ∷ gs) ≡ success
unfolding check_all_recv_base_func_legal check_single_recv_base_func_legal
check_all_recv-head g gs k = ground (arith, send_not_recv g k)

-- An interface with an unknown send function is refused, and so is one with a known send function in
-- the check of the receive functions; but where it is the first one, the code -0 is that of success,
-- whatever follows.
pub first_interface_passes :
    (f g : InterfaceInfo) (fs gs : List InterfaceInfo)
    → name_in f.base_send_func send_func_name_array ≡ false
    → KnowsSender g
    → (check_single_send_base_func_legal f ≡ error)
      × (check_all_send_base_func_legal (f ∷ fs) ≡ success)
      × (check_single_recv_base_func_legal g ≡ error)
      × (check_all_recv_base_func_legal (g ∷ gs) ≡ success)
unfolding check_all_send_base_func_legal check_all_recv_base_func_legal
    check_single_send_base_func_legal check_single_recv_base_func_legal
first_interface_passes f g fs gs h k = (
  ground arith,
  ground arith,
  ground (arith, send_not_recv g k),
  ground (arith, send_not_recv g k),
)
