-- ===== src/Rs485/Send/Laws.antt =====
-- What `send_packet_rs485` puts on the line, and when it ends.
use monitor_node.Prelude.{
  ℕ, zero, suc, ◌+◌, ◌≤◌, ◌<◌, min, ◌≡◌, refl, sym, subst, ◌∙◌, ap, ◌⊎◌, inl, inr, ℤ, pos, error,
  Option, none, some, List, [], ◌∷◌, ◌++◌, All, length, take, drop, replicate, length-drop, arith,
}
use mathlib.Core.List.{append_assoc}
use monitor_node.Rs485.Send.{Transfer, waiting, ended, after_bytes, write_loop, send_packet_rs485}

pub take-drop : {A : Type 0} (n : ℕ) (xs : List A) → take n xs ++ drop n xs ≡ xs
take-drop zero xs = refl
take-drop (suc n) [] = refl
take-drop (suc n) (x ∷ xs) = ap (λ t. x ∷ t) (take-drop n xs)

-- The call took one byte or more.
abbrev pub TakesSome : Option ℕ → Type 0
TakesSome none = ⊥
TakesSome (some n) = 0 < n

-- The loop went on, or put out all bytes, or a part of them and then failed.
abbrev pub PutsPrefix : List ℕ → ℤ → Transfer → Type 0
PutsPrefix msg done waiting = Unit
PutsPrefix msg done (ended code bytes) =
    (rest : List ℕ) × (msg ≡ bytes ++ rest) × (((code ≡ done) × (rest ≡ [])) ⊎ (code ≡ error))

after_bytes-PutsPrefix :
    (xs msg : List ℕ) (done : ℤ) (t : Transfer)
    → PutsPrefix msg done t
    → PutsPrefix (xs ++ msg) done (after_bytes xs t)
after_bytes-PutsPrefix xs msg done waiting p = tt
after_bytes-PutsPrefix xs msg done (ended code bytes) (rest, e, c) =
    (rest, ap (λ t. xs ++ t) e ∙ sym (append_assoc xs bytes rest), c)

-- The count after a call is that of all bytes, less the ones that are left.
chunk_sum :
    (n total : ℕ) (xs : List ℕ)
    → total + min n (length xs) + length (drop (min n (length xs)) xs) ≡ total + length xs
chunk_sum n total xs = omega (arith, length-drop (min n (length xs)) xs)

write_loop-PutsPrefix :
    (writes : List (Option ℕ)) (rest : List ℕ) (total : ℕ)
    → PutsPrefix rest (pos (total + length rest)) (write_loop writes rest total)
unfolding write_loop
write_loop-PutsPrefix writes [] total = ([], refl, inl (ap pos (omega arith), refl))
write_loop-PutsPrefix [] (b ∷ rest) total = tt
write_loop-PutsPrefix (none ∷ writes) (b ∷ rest) total = (b ∷ rest, refl, inr refl)
write_loop-PutsPrefix (some n ∷ writes) (b ∷ rest) total =
    let xs : List ℕ = b ∷ rest in
    let k = min n (length xs) in
    let t = write_loop writes (drop k xs) (total + k) in
    subst (λ q. PutsPrefix q (pos (total + length xs)) (after_bytes (take k xs) t)) (take-drop k xs)
      (after_bytes-PutsPrefix (take k xs) (drop k xs) (pos (total + length xs)) t (
        subst (λ z. PutsPrefix (drop k xs) (pos z) t) (chunk_sum n total xs)
          (write_loop-PutsPrefix writes (drop k xs) (total + k))))

fewer :
    (n : ℕ) (xs : List ℕ) (l : ℕ)
    → 0 < n
    → 0 < length xs
    → length xs ≤ suc l
    → length (drop (min n (length xs)) xs) ≤ l
fewer n xs l p q h = omega (arith, length-drop (min n (length xs)) xs)

write_loop-waits :
    (calls b : ℕ) (msg : List ℕ) (total : ℕ)
    → write_loop (replicate calls (some 0)) (b ∷ msg) total ≡ waiting
unfolding write_loop
write_loop-waits zero b msg total = refl
write_loop-waits (suc calls) b msg total =
    let none_taken : min 0 (length (b ∷ msg)) ≡ 0 = omega arith in
    rw none_taken (ap (after_bytes []) (write_loop-waits calls b msg (total + 0)))

write_loop-ends :
    (writes : List (Option ℕ)) (rest : List ℕ) (total : ℕ)
    → All TakesSome writes
    → length rest ≤ length writes
    → write_loop writes rest total ≡ ended (pos (total + length rest)) rest
unfolding write_loop
write_loop-ends writes [] total a h = ap (λ z. ended (pos z) []) (omega arith)
write_loop-ends [] (b ∷ rest) total a h = absurd (omega arith)
write_loop-ends (none ∷ writes) (b ∷ rest) total a h = absurd a.0
write_loop-ends (some n ∷ writes) (b ∷ rest) total a h =
    let xs : List ℕ = b ∷ rest in
    let k = min n (length xs) in
    ap (after_bytes (take k xs)) (
      write_loop-ends writes (drop k xs) (total + k) a.1
        (fewer n xs (length writes) a.0 (omega arith) (omega (arith, h))))
    ∙ ap (λ z. ended (pos z) (take k xs ++ drop k xs)) (chunk_sum n total xs)
    ∙ ap (ended (pos (total + length xs))) (take-drop k xs)

-- When every call of `write` takes one byte or more, a message that is not empty is out after at most
-- as many calls as it has bytes: the driver ends with the number of its bytes, all of them are on the
-- line in order, and it makes no further call.
pub send_packet_rs485-ends :
    (writes : List (Option ℕ)) (msg : List ℕ)
    → 0 < length msg
    → All TakesSome writes
    → length msg ≤ length writes
    → send_packet_rs485 writes (some msg) ≡ ended (pos (length msg)) msg
unfolding send_packet_rs485
send_packet_rs485-ends writes [] p a h = absurd (omega arith)
send_packet_rs485-ends writes (b ∷ msg) p a h =
    write_loop-ends writes (b ∷ msg) 0 a h ∙ ap (λ z. ended (pos z) (b ∷ msg)) (omega arith)

-- Whatever the calls of `write` answer, the driver puts out a prefix of a message that
-- is not empty: all of it with its length as the code, or a part with the code -1, or it still goes
-- on. It goes on for ever when the calls take nothing.
pub send_packet_rs485-PutsPrefix :
    (writes : List (Option ℕ)) (msg : List ℕ) (calls : ℕ)
    → 0 < length msg
    → PutsPrefix msg (pos (length msg)) (send_packet_rs485 writes (some msg))
      × (send_packet_rs485 (replicate calls (some 0)) (some msg) ≡ waiting)
unfolding send_packet_rs485
send_packet_rs485-PutsPrefix writes [] calls p = absurd (omega arith)
send_packet_rs485-PutsPrefix writes (b ∷ msg) calls p = (
  subst (λ z. PutsPrefix (b ∷ msg) (pos z) (write_loop writes (b ∷ msg) 0)) (omega arith)
      (write_loop-PutsPrefix writes (b ∷ msg) 0),
  write_loop-waits calls b msg 0,
)
