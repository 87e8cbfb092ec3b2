-- ===== src/StatusChooser.antt =====
-- src/status_chooser_lib.c: which state an interface takes in a round, by the name of its chooser.
-- `interface_name` is a parameter of the source's functions that none of them reads.
pub mod Duplex
use monitor_node.Prelude.{
  ℤ, pos, eqb_ℤ, tmod, Str, c_str, strcmp_eq, name_in, Bool, List, [], ◌∷◌, if◌then◌else◌,
}

abbrev pub sending : Str
sending = c_str "sending"

abbrev pub receiving : Str
receiving = c_str "receiving"

abbrev pub closed : Str
closed = c_str "closed"

abbrev pub test_mode : Str
test_mode = c_str "test"

abbrev pub listen_mode : Str
listen_mode = c_str "listen"

abbrev pub status_chooser_name_array : List Str
status_chooser_name_array =
    c_str "work_at_each_round"
    ∷ c_str "only_work_at_odd_round"
    ∷ c_str "only_work_at_even_round"
    ∷ []

unfoldable pub work_at_each_round : Str → Str → ℤ → Str
work_at_each_round interface_name mode current_round =
    if strcmp_eq mode test_mode
    then sending
    else if strcmp_eq mode listen_mode
    then receiving
    else closed

unfoldable pub only_work_at_odd_round : Str → Str → ℤ → Str
only_work_at_odd_round interface_name mode current_round =
    if strcmp_eq mode test_mode
    then (if eqb_ℤ (tmod current_round 2) (pos 1) then sending else receiving)
    else if strcmp_eq mode listen_mode
    then (if eqb_ℤ (tmod current_round 2) (pos 1) then receiving else sending)
    else closed

unfoldable pub only_work_at_even_round : Str → Str → ℤ → Str
only_work_at_even_round interface_name mode current_round =
    if strcmp_eq mode test_mode
    then (if eqb_ℤ (tmod current_round 2) (pos 0) then sending else receiving)
    else if strcmp_eq mode listen_mode
    then (if eqb_ℤ (tmod current_round 2) (pos 0) then receiving else sending)
    else closed

unfoldable pub status_chooser_transfer : Str → Str → Str → ℤ → Str
status_chooser_transfer name interface_name mode current_round =
    if name_in name status_chooser_name_array
    then (if strcmp_eq name (c_str "work_at_each_round")
        then work_at_each_round interface_name mode current_round
        else if strcmp_eq name (c_str "only_work_at_odd_round")
        then only_work_at_odd_round interface_name mode current_round
        else if strcmp_eq name (c_str "only_work_at_even_round")
        then only_work_at_even_round interface_name mode current_round
        else closed)
    else closed
