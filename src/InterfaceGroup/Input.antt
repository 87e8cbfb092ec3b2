-- ===== src/InterfaceGroup/Input.antt =====
-- src/interface_group_operator.c: `input_split_and_copy`. The line that `fgets` reads, without the
-- line break, is a parameter, `none` when there is no more input. `strtok` cuts it at one delimiter,
-- the space, as `main` has it. `none` is an access outside of an array.
pub mod Laws
use monitor_node.Prelude.{
  ℕ, zero, suc, ◌==◌, Str, strncpy, store, Option, none, some, List, [], ◌∷◌, ◌++◌, if◌then◌else◌,
  ◌>>=◌,
}

-- The calls of `strtok`: the runs of characters other than the delimiter `d`; `token` is the run that
-- was begun.
abbrev pub end_token : Str → List Str → List Str
end_token [] ts = ts
end_token (c ∷ s) ts = (c ∷ s) ∷ ts

unfoldable pub tokens_from : ℕ → Str → Str → List Str
tokens_from d token [] = end_token token []
tokens_from d token (c ∷ s) =
    let next = tokens_from d [] s in
    let more = tokens_from d (token ++ c ∷ []) s in if c == d then end_token token next else more

unfoldable pub strtok_all : ℕ → Str → List Str
unfolding tokens_from
strtok_all d input = tokens_from d [] input

-- The two loops over the destinations, whose size is given; a size of 0 would wrap around.
unfoldable pub copy_parts : List Str → List (List ℕ) → List ℕ → Option (List (List ℕ))
copy_parts tokens [] sizes = some []
copy_parts tokens (b ∷ dest) [] = none
copy_parts tokens (b ∷ dest) (zero ∷ sizes) = none
copy_parts [] (b ∷ dest) (suc n ∷ sizes) =
    store b 0 0 >>= λ part. copy_parts [] dest sizes >>= λ rest. some (part ∷ rest)
copy_parts (t ∷ tokens) (b ∷ dest) (suc n ∷ sizes) = strncpy b t n >>= λ copied.
    store copied n 0 >>= λ part. copy_parts tokens dest sizes >>= λ rest. some (part ∷ rest)

unfoldable pub input_split_and_copy :
    Option Str → ℕ → List (List ℕ) → List ℕ → Option (List (List ℕ))
unfolding strtok_all copy_parts
input_split_and_copy none d dest sizes = some dest
input_split_and_copy (some input) d dest sizes = copy_parts (strtok_all d input) dest sizes

-- `parts_size` of `main`
abbrev pub parts_size : List ℕ
parts_size = 50 ∷ 50 ∷ 50 ∷ []
