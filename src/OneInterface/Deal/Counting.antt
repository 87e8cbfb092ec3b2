-- ===== src/OneInterface/Deal/Counting.antt =====
-- The counter of `deal_with_mnt` by itself: what it does with the rounds in which test messages
-- arrive, against the run lengths of these rounds.
use monitor_node.Prelude.{
  ℕ, suc, ◌+◌, ◌≡◌, refl, sym, subst, ◌∙◌, ap, inl, inr, ℤ, pos, eqb_ℤ, eqb_ℤ-eq, ltb_ℤ, ◌≤ℤ◌, ◌<ℤ◌,
  Option, none, some, List, [], ◌∷◌, arith, Bool-cases, if◌then◌else◌,
}

-- How many messages arrived in a round: an entry of `cnt_array` with that of `round_array`.
pub record Count : Type 0 where
  pub hits : ℕ
  pub round : ℤ

-- One arrival in round `r`, and the count that is reported, if one is.
abbrev pub count_step : Count → ℤ → Count × Option Count
count_step c r =
    if eqb_ℤ c.round (pos 0)
    then (record { hits = 1; round = r }, none)
    else if ltb_ℤ c.round r
    then (record { hits = 1; round = r }, some c)
    else (record c { hits = suc c.hits }, none)

abbrev pub add_report : Option Count → List Count → List Count
add_report none l = l
add_report (some c) l = c ∷ l

-- All counts that are reported on the way, and the last one, which is not.
unfoldable pub counts : Count → List ℤ → List Count
counts c [] = c ∷ []
counts c (r ∷ rs) = add_report (count_step c r).1 (counts (count_step c r).0 rs)

-- The run lengths of a list of rounds.
abbrev pub extend : ℤ → List Count → List Count
extend r [] = record { hits = 1; round = r } ∷ []
extend r (c ∷ l) =
    if eqb_ℤ c.round r
    then record c { hits = suc c.hits } ∷ l
    else record { hits = 1; round = r } ∷ c ∷ l

unfoldable pub run_lengths : List ℤ → List Count
run_lengths [] = []
run_lengths (r ∷ rs) = extend r (run_lengths rs)

-- The rounds are positive and do not decrease.
abbrev pub Ascending : ℤ → List ℤ → Type 0
Ascending low [] = Unit {0}
Ascending low (r ∷ rs) = (low ≤ℤ r) × Ascending r rs

-- A count in front of run lengths.
abbrev merge : Count → List Count → List Count
merge c [] = c ∷ []
merge c (d ∷ l) =
    if eqb_ℤ d.round c.round then record d { hits = c.hits + d.hits } ∷ l else c ∷ d ∷ l

merge_same :
    (c : Count) (l : List Count)
    → merge (record c { hits = suc c.hits }) l ≡ merge c (extend c.round l)
merge_same c [] = ground arith
merge_same c (d ∷ l) = ground arith

merge_one : (r : ℤ) (l : List Count) → merge (record { hits = 1; round = r }) l ≡ extend r l
merge_one r [] = refl
merge_one r (d ∷ l) = ground arith

merge_other :
    (c : Count) (r : ℤ) (l : List Count) → c.round <ℤ r → merge c (extend r l) ≡ c ∷ extend r l
merge_other c r [] h = ground arith
merge_other c r (d ∷ l) h = ground (arith, eqb_ℤ-eq d.round r)

counts_same :
    (c : Count) (rs : List ℤ)
    → pos 0 <ℤ c.round
    → counts c (c.round ∷ rs) ≡ counts (record c { hits = suc c.hits }) rs
unfolding counts
counts_same c rs p = ground (arith, eqb_ℤ-eq c.round (pos 0))

counts_new :
    (c : Count) (r : ℤ) (rs : List ℤ)
    → pos 0 <ℤ c.round
    → c.round <ℤ r
    → counts c (r ∷ rs) ≡ c ∷ counts (record { hits = 1; round = r }) rs
unfolding counts
counts_new c r rs p l = ground (arith, eqb_ℤ-eq c.round (pos 0))

counts-merge :
    (c : Count) (rs : List ℤ)
    → pos 0 <ℤ c.round
    → Ascending c.round rs
    → counts c rs ≡ merge c (run_lengths rs)
unfolding counts run_lengths
counts-merge c [] p a = refl
counts-merge c (r ∷ rs) p a = elim (Bool-cases (eqb_ℤ r c.round)) [
  | inl e ↦
      subst (λ q. counts c (q ∷ rs) ≡ merge c (extend q (run_lengths rs)))
        (sym (eqb_ℤ-eq r c.round e))
        (counts_same c rs p
          ∙ counts-merge (record c { hits = suc c.hits }) rs p
              (subst (λ q. Ascending q rs) (eqb_ℤ-eq r c.round e) a.1)
          ∙ merge_same c (run_lengths rs))
  | inr n ↦
      let l : c.round <ℤ r = ground arith in
      counts_new c r rs p l
      ∙ ap (λ t. c ∷ t) (counts-merge (record { hits = 1; round = r }) rs (omega arith) a.1)
      ∙ ap (λ t. c ∷ t) (merge_one r (run_lengths rs))
      ∙ sym (merge_other c r (run_lengths rs) l)
]

counts_first :
    (c : Count) (r : ℤ) (rs : List ℤ)
    → c.round ≡ pos 0
    → counts c (r ∷ rs) ≡ counts (record { hits = 1; round = r }) rs
unfolding counts
counts_first c r rs z = ground arith

-- From a counter whose round is 0, the counts that are reported and the last one are the run
-- lengths of the rounds in which messages arrived.
pub counts-run_lengths :
    (c : Count) (r : ℤ) (rs : List ℤ)
    → c.round ≡ pos 0
    → pos 0 <ℤ r
    → Ascending r rs
    → counts c (r ∷ rs) ≡ run_lengths (r ∷ rs)
unfolding run_lengths
counts-run_lengths c r rs z p a =
    counts_first c r rs z
    ∙ counts-merge (record { hits = 1; round = r }) rs p a
    ∙ merge_one r (run_lengths rs)
