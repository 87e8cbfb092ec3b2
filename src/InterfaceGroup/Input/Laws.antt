-- ===== src/InterfaceGroup/Input/Laws.antt =====
-- The words of a command line in the arrays of fixed size that `main` has for them.
use mathlib.Core.Path.{ap₂}
use mathlib.Core.List.{append_assoc, append-nil}
use monitor_node.Prelude.{
  ℕ, zero, suc, ◌≡◌, refl, sym, ap, ◌∙◌, ◌≢◌, inl, inr, Str, text_at, store, some, List, [], ◌∷◌,
  ◌++◌, ==_refl, map, All, length, take, ◌==◌, false, Bool-cases, arith,
}
use monitor_node.Firmware.Fill.Laws.{IsText, pad, strncpy-pad, store_end, text_at-pad}
use monitor_node.InterfaceGroup.Input.{
  end_token, tokens_from, strtok_all, copy_parts, input_split_and_copy,
}

-- What the destinations are to hold: the tokens, cut to one less than their sizes, and then empty
-- texts.
abbrev pub expected : List Str → List ℕ → List Str
expected tokens [] = []
expected tokens (zero ∷ sizes) = []
expected [] (suc n ∷ sizes) = [] ∷ expected [] sizes
expected (t ∷ tokens) (suc n ∷ sizes) = take n t ∷ expected tokens sizes

-- Each array has its size, which is not 0.
abbrev pub HaveSizes : List (List ℕ) → List ℕ → Type 0
HaveSizes [] [] = Unit
HaveSizes [] (n ∷ sizes) = ⊥
HaveSizes (b ∷ dest) [] = ⊥
HaveSizes (b ∷ dest) (zero ∷ sizes) = ⊥
HaveSizes (b ∷ dest) (suc n ∷ sizes) = (length b ≡ suc n) × HaveSizes dest sizes

end_token-IsText :
    (t : Str) (ts : List Str) → IsText t → All IsText ts → All IsText (end_token t ts)
end_token-IsText [] ts a b = b
end_token-IsText (c ∷ t) ts a b = (a, b)

IsText-snoc : (t : Str) (c : ℕ) → IsText t → c ≢ 0 → IsText (t ++ c ∷ [])
IsText-snoc [] c a n = (n, tt)
IsText-snoc (x ∷ t) c a n = (a.0, IsText-snoc t c a.1 n)

tokens_from-IsText : (d : ℕ) (t s : Str) → IsText t → IsText s → All IsText (tokens_from d t s)
unfolding tokens_from
tokens_from-IsText d t [] a b = end_token-IsText t [] a tt
tokens_from-IsText d t (c ∷ s) a b = elim (Bool-cases (c == d)) [
  | inl e ↦ rw e (end_token-IsText t (tokens_from d [] s) a (tokens_from-IsText d [] s tt b.1))
  | inr e ↦ rw e (tokens_from-IsText d (t ++ c ∷ []) s (IsText-snoc t c a b.0) b.1)
]

last_byte :
    (n : ℕ) (b : List ℕ)
    → length b ≡ suc n
    → (old : List ℕ) × (g : ℕ) × (b ≡ old ++ g ∷ []) × (length old ≡ n)
last_byte n [] h = absurd (omega arith)
last_byte zero (x ∷ []) h = ([], x, refl, refl)
last_byte zero (x ∷ y ∷ b) h = absurd (omega arith)
last_byte (suc n) (x ∷ b) h =
    let (old, g, e, l) = last_byte n b (omega arith) in
    (x ∷ old, g, ap (λ t. x ∷ t) e, omega (arith, l))

emptied :
    (n : ℕ) (b : List ℕ)
    → length b ≡ suc n
    → (r : List ℕ) × (store b 0 0 ≡ some r) × (text_at r ≡ some [])
unfolding store text_at
emptied n [] h = absurd (omega arith)
emptied n (x ∷ b) h = (0 ∷ b, refl, refl)

abbrev Copies : List Str → List (List ℕ) → List ℕ → Type 0
Copies tokens dest sizes =
    (parts : List (List ℕ)) × (copy_parts tokens dest sizes ≡ some parts)
    × (map text_at parts ≡ map some (expected tokens sizes))

copy_parts-Copies :
    (tokens : List Str) (dest : List (List ℕ)) (sizes : List ℕ)
    → All IsText tokens
    → HaveSizes dest sizes
    → Copies tokens dest sizes
unfolding copy_parts
copy_parts-Copies tokens [] [] a h = ([], refl, refl)
copy_parts-Copies tokens [] (n ∷ sizes) a h = absurd h
copy_parts-Copies tokens (b ∷ dest) [] a h = absurd h
copy_parts-Copies tokens (b ∷ dest) (zero ∷ sizes) a h = absurd h
copy_parts-Copies [] (b ∷ dest) (suc n ∷ sizes) a h =
    let (r, e, t) = emptied n b h.0 in
    let (parts, p, q) = copy_parts-Copies [] dest sizes a h.1 in
    (r ∷ parts, rw (e, p) refl, ap₂ (λ x y. x ∷ y) t q)
copy_parts-Copies (t ∷ tokens) (b ∷ dest) (suc n ∷ sizes) a h =
    let (old, g, e, l) = last_byte n b h.0 in
    let (parts, p, q) = copy_parts-Copies tokens dest sizes a.1 h.1 in
    (
      (pad n t ++ 0 ∷ []) ∷ parts,
      rw (e, strncpy-pad n g old t l, store_end n g t, p) refl,
      ap₂ (λ x y. x ∷ y) (text_at-pad n t a.0) q,
    )

-- A line of input, without a zero byte, is cut at the delimiter into its tokens, and the arrays, which
-- have the sizes given and none of which is empty, hold the tokens in order, each cut to one character
-- less than its array has, and empty texts when there are fewer tokens than arrays; more tokens are
-- left out. No byte is written outside of an array.
pub input_split_and_copy_lem :
    (input : Str) (d : ℕ) (dest : List (List ℕ)) (sizes : List ℕ)
    → IsText input
    → HaveSizes dest sizes
    → (parts : List (List ℕ)) × (input_split_and_copy (some input) d dest sizes ≡ some parts)
      × (map text_at parts ≡ map some (expected (strtok_all d input) sizes))
unfolding input_split_and_copy strtok_all
input_split_and_copy_lem input d dest sizes a h =
    copy_parts-Copies (tokens_from d [] input) dest sizes (tokens_from-IsText d [] input tt a) h

-- Words without the delimiter, none of them empty, with one delimiter after each.
abbrev pub unwords : ℕ → List Str → Str
unwords d [] = []
unwords d (w ∷ ws) = w ++ (d ∷ unwords d ws)

abbrev pub IsWord : ℕ → Str → Type 0
IsWord d w = (w ≢ []) × All (λ c. (c == d) ≡ false) w

-- A run is over at the delimiter.
tokens_from_word :
    (d : ℕ) (t w s : Str)
    → All (λ c. (c == d) ≡ false) w
    → tokens_from d t (w ++ (d ∷ s)) ≡ end_token (t ++ w) (tokens_from d [] s)
unfolding tokens_from
tokens_from_word d t [] s a =
    rw (==_refl d) (ap (λ z. end_token z (tokens_from d [] s)) (sym (append-nil t)))
tokens_from_word d t (c ∷ w) s (n, a) = rw n (
    tokens_from_word d (t ++ c ∷ []) w s a
    ∙ ap (λ z. end_token z (tokens_from d [] s)) (append_assoc t (c ∷ []) w))

end_token_word : (w : Str) (ts : List Str) → w ≢ [] → end_token w ts ≡ w ∷ ts
end_token_word [] ts h = absurd (h refl)
end_token_word (c ∷ w) ts h = refl

-- The tokens of a line of words, each followed by the delimiter, are the words.
pub strtok_all-unwords :
    (d : ℕ) (ws : List Str) → All (IsWord d) ws → strtok_all d (unwords d ws) ≡ ws
unfolding strtok_all tokens_from
strtok_all-unwords d [] a = refl
strtok_all-unwords d (w ∷ ws) ((h, n), a) =
    tokens_from_word d [] w (unwords d ws) n
    ∙ end_token_word w (tokens_from d [] (unwords d ws)) h
    ∙ ap (λ t. w ∷ t) (strtok_all-unwords d ws a)
