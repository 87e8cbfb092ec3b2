-- ===== src/InterfaceGroup/Start.antt =====
-- src/interface_group_operator.c: `test_or_listen_upon_interface_group`, up to the joins of the
-- threads; the waits are left out. `hosts` has what the calls outside of the program answer in the
-- initializer of each interface, `creates` what each `pthread_create` answers. `none` is a fault.
pub mod Laws
use monitor_node.Prelude.{
  ℕ, zero, suc, ℤ, pos, eqb_ℤ, error, Str, Bool, true, false, not, Option, none, some, List, [],
  ◌∷◌, ◌++◌, length, if◌then◌else◌, ◌>>=◌,
}
use monitor_node.InfoManager.{Manager}
use monitor_node.InfoManager.Interfaces.{get_interface_name_by_index}
use monitor_node.InfoManager.Interfaces.Parameters.{get_initializer_name_by_index}
use monitor_node.Initializer.Common.{Host, Effect}
use monitor_node.Initializer.Transfer.{initializer_transfer}

-- The table, the array of flags, and what was done.
pub record Initialized : Type 0 where
  pub manager : Manager
  pub initialized_flags : List Bool
  pub effects : List Effect

module _ (hosts : ℕ → Host) where
  -- The first loop, from index `i` with `n` interfaces left.
  unfoldable pub initialize_from : ℕ → ℕ → Manager → Option Initialized
  initialize_from zero i m = some record { manager = m; initialized_flags = []; effects = [] }
  initialize_from (suc n) i m = get_initializer_name_by_index m (pos i) >>= λ initializer.
      get_interface_name_by_index m (pos i) >>= λ name.
      initializer_transfer (hosts i) m initializer name >>= λ o.
      initialize_from n (suc i) o.manager >>= λ r. some record {
        manager = r.manager;
        initialized_flags = not (eqb_ℤ o.code error) ∷ r.initialized_flags;
        effects = o.effects ++ r.effects;
      }

-- The second loop: the array `threads`, in which an entry that is never set is `none`; the whole
-- program exits, `none`, when a thread cannot be created.
unfoldable pub create_threads : (ℕ → Bool) → ℕ → List Bool → Option (List (Option ℕ))
create_threads creates i [] = some []
create_threads creates i (flag ∷ flags) =
    let rest = create_threads creates (suc i) flags in
    if flag
    then (if creates i then (rest >>= λ ts. some (some i ∷ ts)) else none)
    else rest >>= λ ts. some (none ∷ ts)

-- The third loop: `pthread_join` on a handle that was never set is a fault.
unfoldable pub join_threads : List (Option ℕ) → Option (List ℕ)
join_threads [] = some []
join_threads (none ∷ ts) = none
join_threads (some i ∷ ts) = join_threads ts >>= λ js. some (i ∷ js)

pub record Group : Type 0 where
  pub initialized : Initialized
  pub threads : Option (List (Option ℕ))
  pub joined : Option (List ℕ)

unfoldable pub test_or_listen_upon_interface_group :
    (ℕ → Host) → (ℕ → Bool) → Manager → Option Group
unfolding initialize_from create_threads join_threads
test_or_listen_upon_interface_group hosts creates m =
    initialize_from hosts (length m.interface_info_array) 0 m >>= λ r.
    let threads = create_threads creates 0 r.initialized_flags in
    some record { initialized = r; threads = threads; joined = threads >>= join_threads }
