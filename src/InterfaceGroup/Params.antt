-- ===== src/InterfaceGroup/Params.antt =====
-- src/interface_group_operator.c: the checks of the parameters of a command, and `main`, which finds
-- the commands in its arguments or in the lines of input. `exists` is the answer of `access` on a
-- path. What a command does is not part of this file: the commands that are run are the result.
pub mod Laws
use monitor_node.Prelude.{
  ℕ, zero, suc, Str, c_str, strcmp_eq, text_at, Bool, true, false, ◌&&◌, ◌||◌, Option, none, some,
  List, [], ◌∷◌, get_elem?, if◌then◌else◌, ◌>>=◌,
}
use monitor_node.InterfaceGroup.Input.{input_split_and_copy, parts_size}

pub data Command : Type 0 where
  tl_at_one_node_from_split_json_file : Option Str → Option Str → Command
  tl_at_one_node_from_overall_json_file : Option Str → Option Str → Option Str → Command
  split_into_target : Option Str → Option Str → Option Str → Command
  convert_xml_config_to_overall_json_config : Option Str → Option Str → Option Str → Command

module _ (exists : Str → Bool) where
  -- NULL, and the empty name, are refused.
  unfoldable pub is_valid_filename : Option Str → Bool
  is_valid_filename none = false
  is_valid_filename (some []) = false
  is_valid_filename (some (c ∷ s)) = exists (c ∷ s)

  -- The node's name is not checked.
  unfoldable pub check_params : Command → Bool
  unfolding is_valid_filename
  check_params (tl_at_one_node_from_split_json_file config res) =
      is_valid_filename config && is_valid_filename res
  check_params (tl_at_one_node_from_overall_json_file current config res) =
      is_valid_filename config && is_valid_filename res
  check_params (split_into_target current config target) =
      is_valid_filename config && is_valid_filename target
  check_params (convert_xml_config_to_overall_json_config nodes links config) =
      is_valid_filename nodes && (is_valid_filename links && is_valid_filename config)

-- `argv[i]`: NULL after the last argument, and a fault beyond it.
abbrev pub argv_at : List Str → ℕ → Option (Option Str)
argv_at [] zero = some none
argv_at [] (suc i) = none
argv_at (a ∷ argv) zero = some (some a)
argv_at (a ∷ argv) (suc i) = argv_at argv i

-- The commands of `main` with the argument that selects one, from the arguments at hand.
abbrev pub command_of_argv : List Str → Str → Option (Option Command)
command_of_argv argv selected =
    if strcmp_eq selected (c_str "0")
    then (argv_at argv 2 >>= λ a.
        argv_at argv 3 >>= λ b. some (some (tl_at_one_node_from_split_json_file a b)))
    else if strcmp_eq selected (c_str "1")
    then (argv_at argv 2 >>= λ a. argv_at argv 3 >>= λ b.
        argv_at argv 4 >>= λ c. some (some (tl_at_one_node_from_overall_json_file a b c)))
    else if strcmp_eq selected (c_str "2")
    then (argv_at argv 2 >>= λ a.
        argv_at argv 3 >>= λ b. argv_at argv 4 >>= λ c. some (some (split_into_target a b c)))
    else if strcmp_eq selected (c_str "3")
    then (argv_at argv 2 >>= λ a. argv_at argv 3 >>= λ b.
        argv_at argv 4 >>= λ c. some (some (convert_xml_config_to_overall_json_config a b c)))
    else some none

-- The texts of the three arrays.
abbrev pub texts_of : List (List ℕ) → Option (List Str)
texts_of [] = some []
texts_of (p ∷ parts) = text_at p >>= λ t. texts_of parts >>= λ ts. some (t ∷ ts)

abbrev pub named : Str → Str → Str → Bool
named text long digit = strcmp_eq text long || strcmp_eq text digit

-- Which command the first word selects, as a function of the three words that are read next.
abbrev pub command_of_word : Str → Option (Str → Str → Str → Command)
command_of_word word =
    if named word (c_str "TLAtOneNodeFromSplitJsonFile") (c_str "0")
    then some (λ a b c. tl_at_one_node_from_split_json_file (some a) (some b))
    else if named word (c_str "TLAtOneNodeFromOverallJsonFile") (c_str "1")
    then some (λ a b c. tl_at_one_node_from_overall_json_file (some a) (some b) (some c))
    else if named word (c_str "split_into_target") (c_str "2")
    then some (λ a b c. split_into_target (some a) (some b) (some c))
    else if named word (c_str "xml_to_json") (c_str "3")
    then some (λ a b c. convert_xml_config_to_overall_json_config (some a) (some b) (some c))
    else none

-- The two commands that run the supervisor do not come back.
abbrev pub comes_back : Command → Bool
comes_back (tl_at_one_node_from_split_json_file config res) = false
comes_back (tl_at_one_node_from_overall_json_file current config res) = false
comes_back (split_into_target current config target) = true
comes_back (convert_xml_config_to_overall_json_config nodes links config) = true

-- The interactive loop reads a command, or the parameters of one.
pub data Prompt : Type 0 where
  at_cmd : Prompt
  at_args : (Str → Str → Str → Command) → Prompt

-- The commands that are run: the one, and then those of the rest unless it does not come back.
abbrev pub and_then : Option Command → Option (List Command) → Option (List Command)
and_then none rest = rest
and_then (some command) rest =
    if comes_back command then (rest >>= λ cs. some (command ∷ cs)) else some (command ∷ [])

abbrev pub prompt_of : Option (Str → Str → Str → Command) → Prompt
prompt_of none = at_cmd
prompt_of (some f) = at_args f

module _ (exists : Str → Bool) where
  abbrev pub when_valid : Option Command → List Command
  when_valid none = []
  when_valid (some command) = if check_params exists command then command ∷ [] else []

  -- `main` with one argument or more after the name of the program.
  unfoldable pub main_argv : List Str → Option (List Command)
  unfolding check_params
  main_argv argv = argv_at argv 1 >>= λ first.
      first >>= λ selected. command_of_argv argv selected >>= λ c. some (when_valid c)

  -- The command that runs when the words are there, and the next prompt.
  abbrev pub answer_prompt : Prompt → List Str → Option (Option Command × Prompt)
  answer_prompt at_cmd ts = get_elem? ts 0 >>= λ word. some (none, prompt_of (command_of_word word))
  answer_prompt (at_args f) ts = get_elem? ts 0 >>= λ a. get_elem? ts 1 >>= λ b.
      get_elem? ts 2 >>= λ c.
      some (if check_params exists (f a b c) then (some (f a b c), at_cmd) else (none, at_args f))

  -- `main` without an argument: the loop over the lines of input, with the three arrays. At the end of
  -- the input, `none`, it goes on with the words of the last line.
  unfoldable pub main_interactive :
      Prompt → List (List ℕ) → List (Option Str) → Option (List Command)
  unfolding check_params
  main_interactive prompt parts [] = some []
  main_interactive prompt parts (line ∷ lines) =
      input_split_and_copy line b' ' parts parts_size >>= λ parts1. texts_of parts1 >>= λ ts.
      answer_prompt prompt ts >>= λ (command, next).
      and_then command (main_interactive next parts1 lines)
