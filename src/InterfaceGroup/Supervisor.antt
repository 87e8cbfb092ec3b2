-- ===== src/InterfaceGroup/Supervisor.antt =====
-- src/interface_group_operator.c: `execute_func_in_subproc`, `restart_check` and `restart_op`. The
-- supervisor never returns, so it is a step on what `fork`, and `waitpid` with the restart check,
-- answer. The child is another process; its part is the call of `f`.
pub mod Laws
use monitor_node.Prelude.{
  ℕ, ℤ, pos, negsuc, eqb_ℤ, ltb_ℤ, Str, c_str, Bool, true, false, not, ◌&&◌, Option, none, some,
  List, [], ◌∷◌, ◌++◌, if◌then◌else◌,
}

-- At the `fork` of the outer loop, or in the inner loop with the child that was made.
pub data Phase : Type 0 where
  forking : Phase
  watching : ℕ → Phase

pub record Supervisor : Type 0 where
  pub phase : Phase
  pub reset_flag : Bool

-- `fork` makes a child or fails, `waitpid` answers 0, the child, or something else; the Boolean is
-- whether `g()` answers other than 0.
pub data Reply : Type 0 where
  forked : ℕ → Reply
  fork_failed : Reply
  still_running : Bool → Reply
  child_ended : Reply
  wait_failed : Reply

pub data Action : Type 0 where
  started : ℕ → Action
  kill_command : ℕ → Action
  restart_op : Action
  ended : ℕ → Action
  lost : ℕ → Action

-- A reply of a call that is not made at this point changes nothing.
unfoldable pub supervise_step : Supervisor → Reply → Supervisor × List Action
supervise_step s r = by_phase s.phase r
  where
    by_phase : Phase → Reply → Supervisor × List Action
    by_phase forking (forked pid) =
        (record { phase = watching pid; reset_flag = s.reset_flag }, started pid ∷ [])
    by_phase forking r1 = (s, [])
    by_phase (watching pid) (still_running true) = (s, [])
    by_phase (watching pid) (still_running false) =
        (record { phase = forking; reset_flag = false }, kill_command pid ∷ restart_op ∷ [])
    by_phase (watching pid) child_ended =
        (record { phase = forking; reset_flag = false }, ended pid ∷ [])
    by_phase (watching pid) wait_failed =
        (record { phase = forking; reset_flag = false }, lost pid ∷ restart_op ∷ [])
    by_phase (watching pid) r1 = (s, [])

-- The supervisor over the replies.
unfoldable pub supervise : Supervisor → List Reply → Supervisor × List Action
unfolding supervise_step
supervise s [] = (s, [])
supervise s (r ∷ rs) =
    let (s1, as1) = supervise_step s r in let (s2, as2) = supervise s1 rs in (s2, as1 ++ as2)

-- `pid_t pid; int reset_flag=0;` before the first `fork`.
abbrev pub supervisor_start : Supervisor
supervisor_start = record { phase = forking; reset_flag = false }

-- The targets of the pings, in order.
abbrev pub restart_targets : List Str
restart_targets =
    c_str "192.168.1.199" ∷ c_str "192.168.5.10" ∷ c_str "192.168.2.10" ∷ c_str "192.168.11.10" ∷ []

abbrev pub ping_command : Str → Str
ping_command target = c_str "ping -c 1 " ++ (target ++ c_str " > /dev/null 2>&1")

-- The four pings; `system` answers 256 when the command ended with the code 1.
unfoldable pub pings : (Str → ℤ) → List Str → ℤ
pings system [] = pos 1
pings system (t ∷ ts) =
    let rest = pings system ts in if eqb_ℤ (system (ping_command t)) (pos 256) then pos 0 else rest

unfoldable pub restart_check : (Str → ℤ) → ℤ
unfolding pings
restart_check system = pings system restart_targets
