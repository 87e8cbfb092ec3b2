-- ===== src/InterfaceGroup/Params/Laws.antt =====
-- Which commands `main` of src/interface_group_operator.c runs.
use monitor_node.Prelude.{
  ℕ, ◌<◌, length, arith, ◌&&◌, &&_true, refl, ◌≡◌, inl, inr, Str, Bool, true, Option, none, some,
  List, [], ◌∷◌, All, get_elem?, if◌then◌else◌, Bool-cases, Yields, Yields-bind, Yields-then,
  Yields-if,
}
use monitor_node.InterfaceGroup.Input.{input_split_and_copy, parts_size}
use monitor_node.InterfaceGroup.Params.{
  Command, tl_at_one_node_from_split_json_file, tl_at_one_node_from_overall_json_file,
  split_into_target, convert_xml_config_to_overall_json_config, is_valid_filename, check_params,
  argv_at, command_of_argv, main_argv, comes_back, Prompt, at_cmd, at_args, when_valid, and_then,
  texts_of, answer_prompt, main_interactive,
}

module _ (exists : Str → Bool) where
  -- A name that is not empty, of a file that is there.
  pub record IsFile (path : Option Str) : Type 0 where
    pub name : Str
    pub path_is : path ≡ some name
    pub not_empty : 0 < length name
    pub there : exists name ≡ true

  -- The files that a command reads or writes are there; of the node's name nothing is asked.
  abbrev pub IsValid : Command → Type 0
  IsValid (tl_at_one_node_from_split_json_file config res) = IsFile config × IsFile res
  IsValid (tl_at_one_node_from_overall_json_file current config res) = IsFile config × IsFile res
  IsValid (split_into_target current config target) = IsFile config × IsFile target
  IsValid (convert_xml_config_to_overall_json_config nodes links config) =
      IsFile nodes × (IsFile links × IsFile config)

  is_valid_filename-IsFile :
      (path : Option Str) → is_valid_filename exists path ≡ true → IsFile path
  unfolding is_valid_filename
  is_valid_filename-IsFile none e = cc
  is_valid_filename-IsFile (some []) e = cc
  is_valid_filename-IsFile (some (c ∷ s)) e = record {
    name = c ∷ s;
    path_is = refl;
    not_empty = omega arith;
    there = e;
  }

  two_files :
      (a b : Option Str)
      → (is_valid_filename exists a && is_valid_filename exists b) ≡ true
      → IsFile a × IsFile b
  two_files a b e =
      let p = &&_true (is_valid_filename exists a) (is_valid_filename exists b) e in
      (is_valid_filename-IsFile a p.0, is_valid_filename-IsFile b p.1)

  check_params-IsValid : (c : Command) → check_params exists c ≡ true → IsValid c
  unfolding check_params
  check_params-IsValid (tl_at_one_node_from_split_json_file a b) e = two_files a b e
  check_params-IsValid (tl_at_one_node_from_overall_json_file n a b) e = two_files a b e
  check_params-IsValid (split_into_target n a b) e = two_files a b e
  check_params-IsValid (convert_xml_config_to_overall_json_config n l a) e =
      let p =
        &&_true (is_valid_filename exists n)
          (is_valid_filename exists l && is_valid_filename exists a) e in
      (is_valid_filename-IsFile n p.0, two_files l a p.1)

  -- The command, if there is one, is valid.
  abbrev MayRun : Option Command → Type 0
  MayRun none = Unit
  MayRun (some c) = IsValid c

  when_valid-IsValid : (c : Option Command) → All IsValid (when_valid exists c)
  when_valid-IsValid none = tt
  when_valid-IsValid (some c) = elim (Bool-cases (check_params exists c)) [
    | inl e ↦ rw e (check_params-IsValid c e, tt)
    | inr e ↦ rw e tt
  ]

  answer_prompt-MayRun :
      (prompt : Prompt) (ts : List Str) → Yields (λ r. MayRun r.0) (answer_prompt exists prompt ts)
  answer_prompt-MayRun at_cmd ts = Yields-bind _ (get_elem? ts 0) _ (λ word. tt)
  answer_prompt-MayRun (at_args f) ts = Yields-bind _ (get_elem? ts 0) _ (λ a.
      Yields-bind _ (get_elem? ts 1) _
        (λ b. Yields-bind _ (get_elem? ts 2) _ (λ c. chosen f (f a b c))))
    where
      chosen :
          (g : Str → Str → Str → Command) (c : Command)
          → MayRun
              (if◌then◌else◌ {A = Option Command × Prompt}
                (check_params exists c)
                (some c, at_cmd)
                (none, at_args g)).0
      chosen g c = elim (Bool-cases (check_params exists c)) [
        | inl e ↦ rw e (check_params-IsValid c e)
        | inr e ↦ rw e tt
      ]

  and_then-IsValid :
      (c : Option Command) (rest : Option (List Command))
      → MayRun c
      → Yields (All IsValid) rest
      → Yields (All IsValid) (and_then c rest)
  and_then-IsValid none rest v a = a
  and_then-IsValid (some c) rest v a =
      Yields-if _ (comes_back c) _ _ (Yields-then (All IsValid) _ rest _ a (λ cs b. (v, b))) (v, tt)

  main_interactive-IsValid :
      (prompt : Prompt) (parts : List (List ℕ)) (lines : List (Option Str))
      → Yields (All IsValid) (main_interactive exists prompt parts lines)
  unfolding main_interactive
  main_interactive-IsValid prompt parts [] = tt
  main_interactive-IsValid prompt parts (line ∷ lines) =
      Yields-bind _ (input_split_and_copy line b' ' parts parts_size) _ (λ parts1.
        Yields-bind _ (texts_of parts1) _ (λ ts.
          Yields-then (λ r. MayRun r.0) _ (answer_prompt exists prompt ts) _
            (answer_prompt-MayRun prompt ts)
            (λ r v. and_then-IsValid r.0 _ v (main_interactive-IsValid r.1 parts1 lines))))

  -- Whatever the arguments of the program, and whatever the lines of input, however many and in
  -- whatever order, a run of `main` that does not fault runs only commands whose files are there: the
  -- configuration files and the file for the results or the target have names that are not empty, and
  -- `access` finds them under these names as they are passed on to the command, which were cut to 49
  -- characters when they come from a line.
  pub main-IsValid :
      (argv : List Str) (parts : List (List ℕ)) (lines : List (Option Str))
      → Yields (All IsValid) (main_argv exists argv)
        × Yields (All IsValid) (main_interactive exists at_cmd parts lines)
  unfolding main_argv
  main-IsValid argv parts lines = (
    Yields-bind _ (argv_at argv 1) _ (λ first.
        Yields-bind _ first _
          (λ selected. Yields-bind _ (command_of_argv argv selected) _ when_valid-IsValid)),
    main_interactive-IsValid at_cmd parts lines,
  )
