-- ===== src/StatusChooser/Duplex.antt =====
-- What the two ends of a link do in a round, by the choosers of src/status_chooser_lib.c.
use monitor_node.Prelude.{
  ℕ, ◌*◌, ◌≡◌, refl, ◌⊎◌, ℤ, pos, negsuc, tmod, Str, c_str, strcmp_eq, name_in, true, arith,
}
use monitor_node.InfoManager.Status.{is_valid_status}
use monitor_node.StatusChooser.{
  sending, receiving, closed, test_mode, listen_mode, status_chooser_name_array, work_at_each_round,
  only_work_at_odd_round, only_work_at_even_round, status_chooser_transfer,
}

valid_literals :
    (is_valid_status sending ≡ true)
    × (is_valid_status receiving ≡ true)
    × (is_valid_status closed ≡ true)
unfolding is_valid_status name_in strcmp_eq
valid_literals = (refl, refl, refl)

-- Whatever the chooser's name, the mode and the round, the status chosen is a valid one.
pub status_chooser_transfer-IsValid :
    (name interface_name mode : Str) (round : ℤ)
    → is_valid_status (status_chooser_transfer name interface_name mode round) ≡ true
unfolding status_chooser_transfer work_at_each_round only_work_at_odd_round only_work_at_even_round
status_chooser_transfer-IsValid name interface_name mode round = ground (arith, valid_literals)

-- One end sends while the other receives.
abbrev pub Opposed : Str → Str → Type 0
Opposed a b = ((a ≡ sending) × (b ≡ receiving)) ⊎ ((a ≡ receiving) × (b ≡ sending))

-- Two interfaces with the same known chooser, one in mode `test` and one in mode `listen`, are
-- opposed in every round.
pub ends-Opposed :
    (name tester listener : Str) (round : ℤ)
    → name_in name status_chooser_name_array ≡ true
    → Opposed
        (status_chooser_transfer name tester test_mode round)
        (status_chooser_transfer name listener listen_mode round)
unfolding status_chooser_transfer work_at_each_round only_work_at_odd_round only_work_at_even_round
    name_in strcmp_eq
ends-Opposed name tester listener round h = ground arith

-- At two testing interfaces, one with the chooser of odd rounds and one with that of even rounds,
-- exactly one sends in a round from 0 on; in a negative odd round neither does.
pub odd_even_share :
    (odd_if even_if : Str) (n k : ℕ)
    → Opposed
        (status_chooser_transfer (c_str "only_work_at_odd_round") odd_if test_mode (pos n))
        (status_chooser_transfer (c_str "only_work_at_even_round") even_if test_mode (pos n))
      × (status_chooser_transfer (c_str "only_work_at_odd_round") odd_if test_mode (negsuc (2 * k))
          ≡ receiving)
      × (status_chooser_transfer
            (c_str "only_work_at_even_round")
            even_if
            test_mode
            (negsuc (2 * k))
          ≡ receiving)
unfolding status_chooser_transfer only_work_at_odd_round only_work_at_even_round name_in strcmp_eq
    tmod
odd_even_share odd_if even_if n k = (ground arith, ground arith, ground arith)
