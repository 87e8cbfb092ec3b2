-- ===== src/InterfaceGroup/Supervisor/Laws.antt =====
-- What the supervisor does over every list of answers.
use monitor_node.Prelude.{
  ℕ, ◌≡◌, refl, ◌↔◌, ℤ, pos, eqb_ℤ, Str, Bool, true, false, List, [], ◌∷◌, All, Bool-cases, inl,
  inr,
}
use monitor_node.InterfaceGroup.Supervisor.{
  Phase, forking, watching, Reply, forked, fork_failed, still_running, child_ended, wait_failed,
  Action, started, kill_command, restart_op, ended, lost, supervise_step, supervise,
  supervisor_start, restart_targets, ping_command, pings, restart_check,
}

-- The actions keep to one child at a time: a child is started only when there is none, and only the
-- current one is killed, found to have ended or lost.
pub data Guarded : Phase → List Action → Phase → Type 0 where
  done : (p : Phase) → Guarded p [] p
  starts :
      (pid : ℕ) (as1 : List Action) (p : Phase)
      → Guarded (watching pid) as1 p
      → Guarded forking (started pid ∷ as1) p
  kills :
      (pid : ℕ) (as1 : List Action) (p : Phase)
      → Guarded forking as1 p
      → Guarded (watching pid) (kill_command pid ∷ restart_op ∷ as1) p
  ends :
      (pid : ℕ) (as1 : List Action) (p : Phase)
      → Guarded forking as1 p
      → Guarded (watching pid) (ended pid ∷ as1) p
  loses :
      (pid : ℕ) (as1 : List Action) (p : Phase)
      → Guarded forking as1 p
      → Guarded (watching pid) (lost pid ∷ restart_op ∷ as1) p

guarded :
    (p : Phase) (f : Bool) (rs : List Reply)
    → Guarded p
        (supervise record { phase = p; reset_flag = f } rs).1
        (supervise record { phase = p; reset_flag = f } rs).0.phase
unfolding supervise supervise_step
guarded p f [] = done p
guarded forking f (forked pid ∷ rs) = starts pid _ _ (guarded (watching pid) f rs)
guarded forking f (fork_failed ∷ rs) = guarded forking f rs
guarded forking f (still_running b ∷ rs) = guarded forking f rs
guarded forking f (child_ended ∷ rs) = guarded forking f rs
guarded forking f (wait_failed ∷ rs) = guarded forking f rs
guarded (watching pid) f (forked q ∷ rs) = guarded (watching pid) f rs
guarded (watching pid) f (fork_failed ∷ rs) = guarded (watching pid) f rs
guarded (watching pid) f (still_running true ∷ rs) = guarded (watching pid) f rs
guarded (watching pid) f (still_running false ∷ rs) = kills pid _ _ (guarded forking false rs)
guarded (watching pid) f (child_ended ∷ rs) = ends pid _ _ (guarded forking false rs)
guarded (watching pid) f (wait_failed ∷ rs) = loses pid _ _ (guarded forking false rs)

-- Whatever `fork`, `waitpid` and the restart check answer, in whatever order, the supervisor keeps to
-- one child at a time: it starts a child only after it found the last one ended or lost, or gave the
-- command to kill it, and it gives that command for no other process. After each kill and each loss
-- the restart operation is run.
pub supervise-Guarded :
    (rs : List Reply)
    → Guarded forking (supervise supervisor_start rs).1 (supervise supervisor_start rs).0.phase
supervise-Guarded rs = guarded forking false rs

module _ (system : Str → ℤ) where
  abbrev pub Answers : Str → Type 0
  Answers t = eqb_ℤ (system (ping_command t)) (pos 256) ≡ false

  pings_lem : (ts : List Str) → (pings system ts ≡ pos 1) ↔ All Answers ts
  unfolding pings
  pings_lem [] = ((λ e. tt), (λ a. refl))
  pings_lem (t ∷ ts) = elim (Bool-cases (eqb_ℤ (system (ping_command t)) (pos 256))) [
    | inl e ↦ rw e ((λ z. cc), (λ a. cc))
    | inr e ↦ rw e ((λ z. (refl, (pings_lem ts).0 z)), (λ a. (pings_lem ts).1 a.1))
  ]

-- The restart check gives 1 just when no ping of the four targets ends with the answer 256, the code
-- 1 of the command: another failure of a ping counts as an answer of the target.
pub restart_check_lem :
    (system : Str → ℤ) → (restart_check system ≡ pos 1) ↔ All (Answers system) restart_targets
unfolding restart_check
restart_check_lem system = pings_lem system restart_targets
