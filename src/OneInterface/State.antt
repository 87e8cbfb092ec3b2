-- ===== src/OneInterface/State.antt =====
-- src/one_interface_operator.c: the globals, and the arrays that record counts and rounds. A pointer
-- that is NULL or freed is `none`; of the array of mutexes the number is kept.
use monitor_node.Prelude.{
  ℕ, ℤ, pos, negsuc, eqb_ℤ, ltb, ◌-ℤ◌, tdiv, to_i32, Bool, Option, none, some, List, length,
  get_elem?, set, replicate, if◌then◌else◌, ◌>>=◌,
}
use monitor_node.InfoManager.{Manager}

pub record Node : Type 0 where
  pub manager : Manager
  pub initialized_flag : ℤ
  pub cnt_array : Option (List ℕ)
  pub cnt_mutex_array : Option ℕ
  pub round_array : Option (List ℤ)

-- Whether each of the three calls of `malloc` finds memory.
pub record Memory : Type 0 where
  pub cnt_ok : Bool
  pub mutex_ok : Bool
  pub round_ok : Bool

unfoldable pub init_test_or_listen_record_arrays : Memory → Node → Node
init_test_or_listen_record_arrays mem s =
    let number = length s.manager.interface_info_array in
    if eqb_ℤ s.initialized_flag (negsuc 0)
    then (if mem.cnt_ok
        then (if mem.mutex_ok
            then (if mem.round_ok
                then record s {
                  initialized_flag = pos 0;
                  cnt_array = some (replicate number 0);
                  cnt_mutex_array = some number;
                  round_array = some (replicate number (pos 0));
                }
                else record s { cnt_array = none; cnt_mutex_array = none; round_array = none })
            else record s { cnt_array = none; cnt_mutex_array = none })
        else record s { cnt_array = none })
    else s

unfoldable pub free_test_or_listen_record_arrays : Node → Node
free_test_or_listen_record_arrays s =
    if eqb_ℤ s.initialized_flag (pos 0)
    then record s {
      initialized_flag = negsuc 0;
      cnt_array = none;
      cnt_mutex_array = none;
      round_array = none;
    }
    else s

-- `cnt_array[i]` and the like: a fault for a NULL array or an index outside of it.
abbrev pub at_index {ℓ} : {A : Type ℓ} → Option (List A) → ℤ → Option A
at_index array (pos i) = array >>= λ xs. get_elem? xs i
at_index array (negsuc i) = none

abbrev pub put_index {ℓ} : {A : Type ℓ} → Option (List A) → ℤ → A → Option (List A)
put_index array (pos i) v = array >>= λ xs. some (set xs i v)
put_index array (negsuc i) v = none

-- `pthread_mutex_lock(&cnt_mutex_array[i])` finds a mutex.
abbrev pub mutex_at : Node → ℤ → Option (Unit {0})
mutex_at s (pos i) = s.cnt_mutex_array >>= λ n. if ltb i n then some tt else none
mutex_at s (negsuc i) = none

-- `MAX_WAITING_TIME_IN_ONE_ROUND`
abbrev pub max_waiting_time_in_one_round : ℕ
max_waiting_time_in_one_round = 10

-- `PAKCAGES_NUM_ONE_TIME`
abbrev pub packages_num_one_time : ℕ
packages_num_one_time = 20

-- int current_round = (current_time - get_test_begin_time()) / MAX_WAITING_TIME_IN_ONE_ROUND
unfoldable pub current_round_at : Manager → ℤ → ℤ
current_round_at m now = to_i32 (tdiv (now -ℤ m.test_begin_time) max_waiting_time_in_one_round)
