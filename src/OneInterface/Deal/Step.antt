-- ===== src/OneInterface/Deal/Step.antt =====
-- One expected message at a listener of src/one_interface_operator.c: a step of the counter.
use monitor_node.Prelude.{
  ℕ, zero, suc, ◌+◌, ◌<◌, ◌≤◌, ◌≡◌, ◌⊎◌, true, ltb, int_max, refl, inl, inr, ℤ, pos, negsuc, eqb_ℤ,
  ltb_ℤ, Str, false, Option, none, some, List, [], ◌∷◌, length, get_elem?, set, get_elem?-set_self,
  arith, Bool-cases, ◌>>=◌,
}
use monitor_node.InfoManager.{Manager}
use monitor_node.InfoManager.Records.{update_communication_info_array}
use monitor_node.OneInterface.State.{Node, at_index, put_index, packages_num_one_time}
use monitor_node.OneInterface.Deal.{count_message}
use monitor_node.OneInterface.Deal.Counting.{Count, count_step}

-- The counter of the interface at `ind`.
pub record Shows (s : Node) (ind : ℤ) (c : Count) : Type 0 where
  pub cnt : at_index s.cnt_array ind ≡ some c.hits
  pub round : at_index s.round_array ind ≡ some c.round

pub bound : {A : Type 0} (xs : List A) (i : ℕ) (x : A) → get_elem? xs i ≡ some x → i < length xs
bound [] i x e = cc
bound (y ∷ xs) zero x e = omega arith
bound (y ∷ xs) (suc i) x e = omega (arith, bound xs i x e)

-- What is written is read back.
pub at-put :
    {A : Type 0} (a : Option (List A)) (ind : ℤ) (v x : A)
    → at_index a ind ≡ some x
    → (xs : List A) × (put_index a ind v ≡ some xs) × (at_index (some xs) ind ≡ some v)
at-put none (pos i) v x e = cc
at-put (some xs) (pos i) v x e = (set xs i v, refl, get_elem?-set_self xs i v (bound xs i x e))
at-put a (negsuc i) v x e = cc

-- The manager after the step: a reported count is stored under the interface's name.
abbrev pub stored : Str → Str → ℤ → Option Count → Manager → Manager
stored node name later none m = m
stored node name later (some c) m =
    (update_communication_info_array m node name later packages_num_one_time c.hits c.round).1

-- A message in the round of the counter, or before.
count_more :
    (s : Node) (ind : ℤ) (node name : Str) (later r : ℤ) (c : Count)
    → Shows s ind c
    → eqb_ℤ c.round (pos 0) ≡ false
    → ltb_ℤ c.round r ≡ false
    → c.hits < int_max
    → (s' : Node) × (count_message s ind node name later r ≡ some s')
      × Shows s' ind (record c { hits = suc c.hits })
      × (s'.manager ≡ s.manager)
      × (s'.cnt_mutex_array ≡ s.cnt_mutex_array)
unfolding count_message
count_more s ind node name later r c h z l fits =
    let (cnts, put, got) = at-put s.cnt_array ind (suc c.hits) c.hits h.cnt in
    let room : ltb c.hits int_max ≡ true = ground arith in
    (
      record s { cnt_array = some cnts },
      rw (h.cnt, h.round, z, l, put, room),
      record { cnt = got; round = h.round },
      refl,
      refl,
    )

-- The counter begins anew, with the manager `m`.
count_restart :
    (s : Node) (ind : ℤ) (r : ℤ) (c : Count) (m : Manager)
    → Shows s ind c
    → (s' : Node) × ((put_index s.cnt_array ind 1 >>= λ cnts.
          put_index s.round_array ind r >>= λ rounds.
          some (record s { manager = m; cnt_array = some cnts; round_array = some rounds }))
        ≡ some s')
      × Shows s' ind (record { hits = 1; round = r })
      × (s'.manager ≡ m)
      × (s'.cnt_mutex_array ≡ s.cnt_mutex_array)
count_restart s ind r c m h =
    let (cnts, put, got) = at-put s.cnt_array ind 1 c.hits h.cnt in
    let (rounds, put', got') = at-put s.round_array ind r c.round h.round in
    (
      record s { manager = m; cnt_array = some cnts; round_array = some rounds },
      rw (put, put'),
      record { cnt = got; round = got' },
      refl,
      refl,
    )

-- Up to `n` more messages can be counted: the counter is about to begin anew, or stands low enough.
abbrev pub HasRoom : Count → ℕ → Type 0
HasRoom c n = (n ≤ int_max) × ((c.round ≡ pos 0) ⊎ (c.hits + n ≤ int_max))

pub HasRoom-step : (c : Count) (r : ℤ) (n : ℕ) → HasRoom c (suc n) → HasRoom (count_step c r).0 n
HasRoom-step c r n (h, inl z) = ground arith
HasRoom-step c r n (h, inr k) = ground arith

below : (c : Count) {n : ℕ} → HasRoom c (suc n) → eqb_ℤ c.round (pos 0) ≡ false → c.hits < int_max
below c (h, inl z) e = ground arith
below c (h, inr k) e = omega arith

-- The branch of an expected message makes the step of the counter.
pub count_message_lem :
    (s : Node) (ind : ℤ) (node name : Str) (later r : ℤ) (c : Count) (n : ℕ)
    → Shows s ind c
    → HasRoom c (suc n)
    → (s' : Node) × (count_message s ind node name later r ≡ some s')
      × Shows s' ind (count_step c r).0
      × (s'.manager ≡ stored node name later (count_step c r).1 s.manager)
      × (s'.cnt_mutex_array ≡ s.cnt_mutex_array)
unfolding count_message
count_message_lem s ind node name later r c n h k = elim (Bool-cases (eqb_ℤ c.round (pos 0))) [
  | inl z ↦ rw (h.cnt, h.round, z) (count_restart s ind r c s.manager h)
  | inr z ↦ elim (Bool-cases (ltb_ℤ c.round r)) [
    | inl l ↦
        rw (h.cnt, h.round, z, l)
          (count_restart s ind r c (stored node name later (some c) s.manager) h)
    | inr l ↦ rw (z, l) (count_more s ind node name later r c h z l (below c k z))
  ]
]
