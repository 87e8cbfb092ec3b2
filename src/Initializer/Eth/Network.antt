-- ===== src/Initializer/Eth/Network.antt =====
-- The network of an address, as `eth_initializer_normal` of src/initializer_closer_lib.c makes it.
use mathlib.Core.List.{append_assoc}
use monitor_node.Prelude.{
  ℕ, zero, suc, ◌+◌, ◌≤◌, ◌≡◌, refl, ap, ◌∙◌, ◌≢◌, Str, text_at, store, false, some, List, [], ◌∷◌,
  ◌++◌, All, length, length-append, ◌==◌, arith, ◌>>=◌,
}
use monitor_node.Initializer.Eth.{copy_network}

-- Characters other than the dot and zero.
abbrev pub IsPart : Str → Type 0
IsPart = All (λ c. ((c == b'.') ≡ false) × (c ≢ 0))

store_at :
    (xs : List ℕ) (y : ℕ) (ys : List ℕ) (v : ℕ)
    → store (xs ++ y ∷ ys) (length xs) v ≡ some (xs ++ v ∷ ys)
unfolding store
store_at [] y ys v = refl
store_at (x ∷ xs) y ys v = rw (store_at xs y ys v)

store_1 :
    (xs : List ℕ) (a y : ℕ) (ys : List ℕ) (v : ℕ)
    → store (xs ++ a ∷ y ∷ ys) (suc (length xs)) v ≡ some (xs ++ a ∷ v ∷ ys)
unfolding store
store_1 [] a y ys v = refl
store_1 (x ∷ xs) a y ys v = rw (store_1 xs a y ys v)

store_2 :
    (xs : List ℕ) (a b y : ℕ) (ys : List ℕ) (v : ℕ)
    → store (xs ++ a ∷ b ∷ y ∷ ys) (suc (suc (length xs))) v ≡ some (xs ++ a ∷ b ∷ v ∷ ys)
unfolding store
store_2 [] a b y ys v = refl
store_2 (x ∷ xs) a b y ys v = rw (store_2 xs a b y ys v)

snoc_length : (xs : List ℕ) (c : ℕ) → length (xs ++ c ∷ []) ≡ suc (length xs)
snoc_length xs c = length-append xs (c ∷ []) ∙ omega arith

-- The loop over a part that is copied behind `xs`, up to its dot.
copy_part :
    (s t xs : Str) (old ys : List ℕ) (cnt : ℕ)
    → IsPart s
    → length old ≡ suc (length s)
    → (suc cnt == 3) ≡ false
    → (cnt == 3) ≡ false
    → copy_network (s ++ b'.' ∷ t) (length xs) cnt (xs ++ (old ++ ys))
      ≡ copy_network t (length (xs ++ (s ++ b'.' ∷ []))) (suc cnt) ((xs ++ (s ++ b'.' ∷ [])) ++ ys)
unfolding copy_network
copy_part [] t xs [] ys cnt p l e f = absurd (omega arith)
copy_part [] t xs (o ∷ x ∷ old) ys cnt p l e f = absurd (omega arith)
copy_part [] t xs (o ∷ []) ys cnt p l e f =
    rw (store_at xs o ys b'.', e, snoc_length xs b'.', append_assoc xs (b'.' ∷ []) ys) refl
copy_part (c ∷ s) t xs [] ys cnt p l e f = absurd (omega arith)
copy_part (c ∷ s) t xs (o ∷ old) ys cnt ((n, z), p) l e f =
    let r = copy_part s t (xs ++ c ∷ []) old ys cnt p (omega (arith, l)) e f in
    let r' : copy_network (s ++ b'.' ∷ t) (suc (length xs)) cnt (xs ++ c ∷ (old ++ ys))
        ≡ copy_network t (length (xs ++ c ∷ (s ++ b'.' ∷ []))) (suc cnt)
            ((xs ++ c ∷ (s ++ b'.' ∷ [])) ++ ys) =
      rw
        (
          snoc_length xs c,
          append_assoc xs (c ∷ []) (old ++ ys),
          append_assoc xs (c ∷ []) (s ++ b'.' ∷ []),
        )
        at r in
    rw (store_at xs o (old ++ ys) c, n, f) r'

-- The loop over the third part, behind whose dot the zero goes.
copy_last :
    (s t xs : Str) (old ys : List ℕ) (x y : ℕ)
    → IsPart s
    → length old ≡ suc (length s)
    → copy_network (s ++ b'.' ∷ t) (length xs) 2 (xs ++ (old ++ x ∷ y ∷ ys))
      ≡ some ((xs ++ (s ++ b'.' ∷ [])) ++ b'0' ∷ 0 ∷ ys)
unfolding copy_network
copy_last [] t xs [] ys x y p l = absurd (omega arith)
copy_last [] t xs (o ∷ q ∷ old) ys x y p l = absurd (omega arith)
copy_last [] t xs (o ∷ []) ys x y p l =
    rw
      (
        store_at xs o (x ∷ y ∷ ys) b'.',
        store_1 xs b'.' x (y ∷ ys) b'0',
        store_2 xs b'.' b'0' y ys 0,
        append_assoc xs (b'.' ∷ []) (b'0' ∷ 0 ∷ ys),
      )
      refl
copy_last (c ∷ s) t xs [] ys x y p l = absurd (omega arith)
copy_last (c ∷ s) t xs (o ∷ old) ys x y ((n, z), p) l =
    let r = copy_last s t (xs ++ c ∷ []) old ys x y p (omega (arith, l)) in
    let r' : copy_network (s ++ b'.' ∷ t) (suc (length xs)) 2 (xs ++ c ∷ (old ++ x ∷ y ∷ ys))
        ≡ some ((xs ++ c ∷ (s ++ b'.' ∷ [])) ++ b'0' ∷ 0 ∷ ys) =
      rw
        (
          snoc_length xs c,
          append_assoc xs (c ∷ []) (old ++ x ∷ y ∷ ys),
          append_assoc xs (c ∷ []) (s ++ b'.' ∷ []),
        )
        at r in
    rw (store_at xs o (old ++ x ∷ y ∷ ys) c, n) r'

split_at :
    (n : ℕ) (xs : List ℕ)
    → n ≤ length xs
    → (p : List ℕ) × (q : List ℕ) × (xs ≡ p ++ q) × (length p ≡ n) × (n + length q ≡ length xs)
split_at zero xs h = ([], xs, refl, refl, omega arith)
split_at (suc n) [] h = absurd (omega arith)
split_at (suc n) (x ∷ xs) h =
    let (p, q, e, l, k) = split_at n xs (omega arith) in
    (x ∷ p, q, ap (λ t. x ∷ t) e, omega (arith, l), omega (arith, k))

text_at-part :
    (s : Str) (t : List ℕ) (u : Str)
    → IsPart s
    → text_at t ≡ some u
    → text_at (s ++ t) ≡ some (s ++ u)
unfolding text_at
text_at-part [] t u p e = e
text_at-part (zero ∷ s) t u p e = absurd (p.0.1 refl)
text_at-part (suc c ∷ s) t u p e = rw (text_at-part s t u p.1 e) refl

-- The three parts with their dots, and the zero.
abbrev pub network_of : Str → Str → Str → Str
network_of a b c = a ++ b'.' ∷ (b ++ b'.' ∷ (c ++ b'.' ∷ b'0' ∷ []))

network_text :
    (a b c : Str) (ys : List ℕ)
    → IsPart a
    → IsPart b
    → IsPart c
    → text_at (a ++ b'.' ∷ (b ++ b'.' ∷ (c ++ b'.' ∷ b'0' ∷ 0 ∷ ys))) ≡ some (network_of a b c)
unfolding text_at
network_text a b c ys pa pb pc =
    let r = text_at-part c (b'.' ∷ b'0' ∷ 0 ∷ ys) (b'.' ∷ b'0' ∷ []) pc refl in
    let q =
      text_at-part b (b'.' ∷ (c ++ b'.' ∷ b'0' ∷ 0 ∷ ys)) (b'.' ∷ (c ++ b'.' ∷ b'0' ∷ [])) pb
        (rw (text_at, r) refl) in
    text_at-part a (b'.' ∷ (b ++ b'.' ∷ (c ++ b'.' ∷ b'0' ∷ 0 ∷ ys)))
      (b'.' ∷ (b ++ b'.' ∷ (c ++ b'.' ∷ b'0' ∷ []))) pa (rw (text_at, q) refl)

join_part : (xs s w : List ℕ) → (xs ++ (s ++ b'.' ∷ [])) ++ w ≡ xs ++ (s ++ b'.' ∷ w)
join_part xs s w =
    append_assoc xs (s ++ b'.' ∷ []) w ∙ ap (λ t. xs ++ t) (append_assoc s (b'.' ∷ []) w)

at_least_two : (q : List ℕ) → 2 ≤ length q → (x : ℕ) × (y : ℕ) × (ys : List ℕ) × (q ≡ x ∷ y ∷ ys)
at_least_two [] h = absurd (omega arith)
at_least_two (x ∷ []) h = absurd (omega arith)
at_least_two (x ∷ y ∷ ys) h = (x, y, ys, refl)

-- The three parts in their places.
copy_three :
    (a b c rest p1 p2 p3 ys : List ℕ) (x y : ℕ)
    → IsPart a
    → IsPart b
    → IsPart c
    → length p1 ≡ suc (length a)
    → length p2 ≡ suc (length b)
    → length p3 ≡ suc (length c)
    → copy_network
        (a ++ b'.' ∷ (b ++ b'.' ∷ (c ++ b'.' ∷ rest)))
        0
        0
        (p1 ++ (p2 ++ (p3 ++ x ∷ y ∷ ys)))
      ≡ some (a ++ b'.' ∷ (b ++ b'.' ∷ (c ++ b'.' ∷ b'0' ∷ 0 ∷ ys)))
copy_three a b c rest p1 p2 p3 ys x y pa pb pc l1 l2 l3 =
    let xs1 : List ℕ = a ++ b'.' ∷ [] in
    let xs2 : List ℕ = xs1 ++ (b ++ b'.' ∷ []) in
    copy_part a (b ++ b'.' ∷ (c ++ b'.' ∷ rest)) [] p1 (p2 ++ (p3 ++ x ∷ y ∷ ys)) 0 pa l1 refl refl
    ∙ copy_part b (c ++ b'.' ∷ rest) xs1 p2 (p3 ++ x ∷ y ∷ ys) 1 pb l2 refl refl
    ∙ copy_last c rest xs2 p3 ys x y pc l3
    ∙ ap some (
        join_part xs2 c (b'0' ∷ 0 ∷ ys)
        ∙ join_part xs1 b (c ++ b'.' ∷ b'0' ∷ 0 ∷ ys)
        ∙ append_assoc a (b'.' ∷ []) (b ++ b'.' ∷ (c ++ b'.' ∷ b'0' ∷ 0 ∷ ys)))

-- An address has three dots, with at most eleven characters in all before, between and before the
-- last of them, and any characters behind; whatever the array `ip_t` of 16 bytes held, the loop fills
-- it with the text of the three parts and a zero, without an access outside of the array.
pub copy_network-network_of :
    (a b c rest : Str) (ip_t : List ℕ)
    → IsPart a
    → IsPart b
    → IsPart c
    → length ip_t ≡ 16
    → length a + length b + length c ≤ 11
    → (copy_network (a ++ b'.' ∷ (b ++ b'.' ∷ (c ++ b'.' ∷ rest))) 0 0 ip_t >>= text_at)
      ≡ some (network_of a b c)
copy_network-network_of a b c rest ip_t pa pb pc l h =
    let (p1, q1, e1, l1, k1) = split_at (suc (length a)) ip_t (omega (arith, l, h)) in
    let (p2, q2, e2, l2, k2) = split_at (suc (length b)) q1 (omega (arith, l, h, k1)) in
    let (p3, q3, e3, l3, k3) = split_at (suc (length c)) q2 (omega (arith, l, h, k1, k2)) in
    let (x, y, ys, e4) = at_least_two q3 (omega (arith, l, h, k1, k2, k3)) in
    rw (e1, e2, e3, e4, copy_three a b c rest p1 p2 p3 ys x y pa pb pc l1 l2 l3)
      (network_text a b c ys pa pb pc)
