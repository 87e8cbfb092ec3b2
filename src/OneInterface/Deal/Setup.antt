-- ===== src/OneInterface/Deal/Setup.antt =====
-- src/one_interface_operator.c: the arrays of counts and rounds, made and freed.
use monitor_node.Prelude.{
  ℕ, zero, suc, ◌<◌, ◌≡◌, refl, pos, negsuc, ltb, true, false, ◌&&◌, none, some, length, get_elem?,
  replicate, arith, if◌then◌else◌,
}
use monitor_node.OneInterface.State.{
  Node, Memory, init_test_or_listen_record_arrays, free_test_or_listen_record_arrays, mutex_at,
}
use monitor_node.OneInterface.Deal.Step.{Shows}

get_elem?-replicate : {A : Type 0} (n i : ℕ) (x : A) → i < n → get_elem? (replicate n x) i ≡ some x
get_elem?-replicate zero i x h = absurd (omega arith)
get_elem?-replicate (suc n) zero x h = refl
get_elem?-replicate (suc n) (suc i) x h = get_elem?-replicate n i x (omega arith)

mutex_inside : (n i : ℕ) → i < n → (if ltb i n then some (tt {0}) else none) ≡ some tt
mutex_inside n i h = ground (arith, h)

-- When the arrays are not made yet and all memory is found, the call makes a mutex and a count of 0
-- in round 0 for every interface of the table. A second call changes nothing, and freeing the
-- arrays takes the node back to where it was but for the arrays, which are NULL then.
pub init_test_or_listen_record_arrays_lem :
    (mem later : Memory) (s : Node) (i : ℕ)
    → s.initialized_flag ≡ negsuc 0
    → mem.cnt_ok && (mem.mutex_ok && mem.round_ok) ≡ true
    → i < length s.manager.interface_info_array
    → let t = init_test_or_listen_record_arrays mem s in
      Shows t (pos i) (record { hits = 0; round = pos 0 })
      × (mutex_at t (pos i) ≡ some tt)
      × (init_test_or_listen_record_arrays later t ≡ t)
      × (free_test_or_listen_record_arrays t ≡ record s {
        initialized_flag = negsuc 0;
        cnt_array = none;
        cnt_mutex_array = none;
        round_array = none;
      })
unfolding init_test_or_listen_record_arrays free_test_or_listen_record_arrays
init_test_or_listen_record_arrays_lem mem later s i e ok h =
    let n = length s.manager.interface_info_array in
    let a : mem.cnt_ok ≡ true = ground (arith, ok) in
    let b : mem.mutex_ok ≡ true = ground (arith, ok) in
    let c : mem.round_ok ≡ true = ground (arith, ok) in
    rw (e, a, b, c)
      (
        record { cnt = get_elem?-replicate n i 0 h; round = get_elem?-replicate n i (pos 0) h },
        mutex_inside n i h,
        refl,
        refl,
      )

-- When the arrays are not made yet and memory is missing at a call, a later call that finds all
-- memory gives what it would have given without the first one.
pub init_test_or_listen_record_arrays_retry :
    (mem later : Memory) (s : Node)
    → s.initialized_flag ≡ negsuc 0
    → mem.cnt_ok && (mem.mutex_ok && mem.round_ok) ≡ false
    → later.cnt_ok && (later.mutex_ok && later.round_ok) ≡ true
    → init_test_or_listen_record_arrays later (init_test_or_listen_record_arrays mem s)
      ≡ init_test_or_listen_record_arrays later s
unfolding init_test_or_listen_record_arrays
init_test_or_listen_record_arrays_retry mem later s e bad ok = ground (arith, e, bad, ok)
