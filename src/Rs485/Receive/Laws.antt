-- ===== src/Rs485/Receive/Laws.antt =====
-- What `receive_packet_rs485` makes of the bytes on the line.
use monitor_node.Prelude.{
  ℕ, zero, suc, ◌+◌, ◌-◌, ◌≤◌, ◌<◌, ◌==◌, ◌≡◌, refl, sym, subst, ◌∙◌, ap, ◌⊎◌, inl, inr, pos, error,
  Bool, true, false, some, List, [], ◌∷◌, ◌++◌, All, map, length, length-append, length-take, take,
  take_all, drop, leb, Bool-cases, replicate, length-replicate, arith,
}
use mathlib.Core.List.{append_assoc, append-nil}
use monitor_node.Rs485.Receive.{
  Answer, timed_out, select_failed, read_failed, bytes, Reception, pending, received, buffer_of,
  finish, read_loop, receive_packet_rs485,
}

-- The pieces in one.
abbrev pub joined : List (List ℕ) → List ℕ
joined [] = []
joined (c ∷ cs) = c ++ joined cs

abbrev pub IsPiece : List ℕ → Type 0
IsPiece c = 0 < length c

finish_full : (n : ℕ) (got : List ℕ) → length got ≡ n → 0 < n → finish n got ≡ received (pos n) got
finish_full n got e h =
    let fits : n - length got ≡ 0 = omega (arith, e) in
    let some_ : (length got == 0) ≡ false = ground (arith, e) in rw (fits, some_, append-nil, e)

read_loop_pieces :
    (n room : ℕ) (started : Bool) (got : List ℕ) (pieces : List (List ℕ))
    → All IsPiece pieces
    → length (joined pieces) ≡ room
    → length got + room ≡ n
    → 0 < n
    → read_loop (map bytes pieces) n room started got ≡ received (pos n) (got ++ joined pieces)
unfolding read_loop
read_loop_pieces n zero started got [] a e s h =
    finish_full n got (omega (arith, s)) h ∙ ap (received (pos n)) (sym (append-nil got))
read_loop_pieces n (suc room) started got [] a e s h = absurd (omega arith)
read_loop_pieces n room started got ([] ∷ pieces) a e s h = absurd (omega (arith, a.0))
read_loop_pieces n zero started got ((x ∷ xs) ∷ pieces) a e s h =
    absurd (omega (arith, length-append (x ∷ xs) (joined pieces)))
read_loop_pieces n (suc room) started got ((x ∷ xs) ∷ pieces) a e s h =
    let c : List ℕ = x ∷ xs in
    let l = length-append c (joined pieces) in
    let whole : take (suc room) c ≡ c = take_all (suc room) c (omega (arith, e, l)) in
    subst
      (λ q.
        read_loop (map bytes pieces) n (suc room - length q) true (got ++ q)
        ≡ received (pos n) (got ++ (c ++ joined pieces)))
      (sym whole)
      (read_loop_pieces n (suc room - length c) true (got ++ c) pieces a.1 (omega (arith, e, l))
          (omega (arith, s, e, l, length-append got c)) h
        ∙ ap (received (pos n)) (append_assoc got c (joined pieces)))

read_loop_empty :
    (n room quiet : ℕ) (answers : List Answer)
    → read_loop (replicate quiet (bytes []) ++ answers) n (suc room) false []
      ≡ read_loop answers n (suc room) false []
unfolding read_loop
read_loop_empty n room zero answers = refl
read_loop_empty n room (suc quiet) answers = read_loop_empty n room quiet answers

-- However a packet is cut into pieces on the line, and however often nothing has come yet at first,
-- the driver gives the whole packet and its length when the buffer has just this length.
pub receive_packet_rs485_pieces :
    (quiet n : ℕ) (pieces : List (List ℕ))
    → All IsPiece pieces
    → length (joined pieces) ≡ n
    → 0 < n
    → receive_packet_rs485 (replicate quiet (bytes []) ++ map bytes pieces) (some n)
      ≡ received (pos n) (joined pieces)
unfolding receive_packet_rs485
receive_packet_rs485_pieces quiet zero pieces a e h = absurd (omega arith)
receive_packet_rs485_pieces quiet (suc n) pieces a e h =
    read_loop_empty (suc n) n quiet (map bytes pieces)
    ∙ read_loop_pieces (suc n) (suc n) false [] pieces a e (omega arith) h

-- The bytes that the calls of `read` give, in order.
abbrev pub all_bytes : List Answer → List ℕ
all_bytes [] = []
all_bytes (bytes c ∷ answers) = c ++ all_bytes answers
all_bytes (_ ∷ answers) = all_bytes answers

-- The buffer holds the first bytes of `whole` and then zeros; the code is their number, which is not 0,
-- or -1.
abbrev pub IsFilled : List ℕ → ℕ → Reception → Type 0
IsFilled whole n pending = Unit
IsFilled whole n (received code buffer) =
    (got : List ℕ) × (later : List ℕ) × (whole ≡ got ++ later)
    × (buffer ≡ buffer_of n got)
    × (length buffer ≡ n)
    × ((code ≡ error) ⊎ ((0 < length got) × (code ≡ pos (length got))))

buffer_length : (n : ℕ) (got : List ℕ) → length got ≤ n → length (buffer_of n got) ≡ n
buffer_length n got h =
    length-append got (replicate (n - length got) 0)
    ∙ omega (arith, h, length-replicate {A = ℕ} (n - length got) 0)

finish-IsFilled :
    (whole : List ℕ) (n : ℕ) (got later : List ℕ)
    → whole ≡ got ++ later
    → length got ≤ n
    → IsFilled whole n (finish n got)
finish-IsFilled whole n [] later e h = ([], later, e, refl, buffer_length n [] h, inl refl)
finish-IsFilled whole n (x ∷ got) later e h =
    (x ∷ got, later, e, refl, buffer_length n (x ∷ got) h, inr (omega arith, ground arith))

take-++-drop : (n : ℕ) (c : List ℕ) → take n c ++ drop n c ≡ c
take-++-drop zero c = refl
take-++-drop (suc n) [] = refl
take-++-drop (suc n) (x ∷ c) = ap (λ t. x ∷ t) (take-++-drop n c)

drop_all : (n : ℕ) (c : List ℕ) → length c ≤ n → drop n c ≡ []
drop_all zero [] h = refl
drop_all zero (x ∷ c) h = absurd (omega arith)
drop_all (suc n) [] h = refl
drop_all (suc n) (x ∷ c) h = drop_all n c (omega arith)

-- What is still to come on the line: all bytes of the answers that are left, while there is room.
abbrev ToCome : ℕ → List Answer → List ℕ → Type 0
ToCome room answers later = (room ≡ 0) ⊎ (later ≡ all_bytes answers)

chunk-ToCome :
    (room : ℕ) (c : List ℕ) (answers : List Answer)
    → ToCome (room - length (take room c)) answers (drop room c ++ all_bytes answers)
chunk-ToCome room c answers = elim (Bool-cases (leb (length c) room)) [
  | inl e ↦ inr (ap (λ t. t ++ all_bytes answers) (drop_all room c (ground arith)))
  | inr e ↦ inl (ground (arith, length-take room c))
]

chunk_whole :
    (room : ℕ) (c got more : List ℕ)
    → got ++ (c ++ more) ≡ (got ++ take room c) ++ (drop room c ++ more)
chunk_whole room c got more =
    ap (λ t. got ++ (t ++ more)) (sym (take-++-drop room c))
    ∙ ap (λ t. got ++ t) (append_assoc (take room c) (drop room c) more)
    ∙ sym (append_assoc got (take room c) (drop room c ++ more))

read_loop-IsFilled :
    (whole : List ℕ) (answers : List Answer) (n room : ℕ) (started : Bool) (got later : List ℕ)
    → whole ≡ got ++ later
    → ToCome room answers later
    → length got + room ≡ n
    → IsFilled whole n (read_loop answers n room started got)
unfolding read_loop
read_loop-IsFilled whole answers n zero started got later e t s =
    finish-IsFilled whole n got later e (omega (arith, s))
read_loop-IsFilled whole answers n (suc room) started got later e (inl z) s =
    absurd (omega (arith, z))
read_loop-IsFilled whole [] n (suc room) started got later e (inr t) s = tt
read_loop-IsFilled whole (timed_out ∷ answers) n (suc room) started got later e (inr t) s =
    finish-IsFilled whole n got later e (omega (arith, s))
read_loop-IsFilled whole (select_failed ∷ answers) n (suc room) started got later e (inr t) s =
    (got, later, e, refl, buffer_length n got (omega (arith, s)), inl refl)
read_loop-IsFilled whole (read_failed ∷ answers) n (suc room) started got later e (inr t) s =
    (got, later, e, refl, buffer_length n got (omega (arith, s)), inl refl)
read_loop-IsFilled whole (bytes [] ∷ answers) n (suc room) true got later e (inr t) s =
    finish-IsFilled whole n got later e (omega (arith, s))
read_loop-IsFilled whole (bytes [] ∷ answers) n (suc room) false got later e (inr t) s =
    read_loop-IsFilled whole answers n (suc room) false got later e (inr t) s
read_loop-IsFilled whole (bytes (x ∷ xs) ∷ answers) n (suc room) started got later e (inr t) s =
    let c : List ℕ = x ∷ xs in
    let chunk = take (suc room) c in
    read_loop-IsFilled whole answers n (suc room - length chunk) true (got ++ chunk)
      (drop (suc room) c ++ all_bytes answers)
      (e ∙ ap (λ q. got ++ q) t ∙ chunk_whole (suc room) c got (all_bytes answers))
      (chunk-ToCome (suc room) c answers)
      (omega (arith, s, length-append got chunk, length-take (suc room) c))

-- Whatever the calls of `select` and `read` answer, a reception into a buffer of `n > 0` bytes that ends
-- leaves in it the first bytes that were on the line, in the order in which they came, and zeros after
-- them up to its end; the code is -1, or the number of these bytes, which is then one or more. No byte
-- is written outside of the buffer.
pub receive_packet_rs485-IsFilled :
    (answers : List Answer) (n : ℕ)
    → 0 < n
    → IsFilled (all_bytes answers) n (receive_packet_rs485 answers (some n))
unfolding receive_packet_rs485
receive_packet_rs485-IsFilled answers zero h = absurd (omega arith)
receive_packet_rs485-IsFilled answers (suc n) h =
    read_loop-IsFilled (all_bytes answers) answers (suc n) (suc n) false [] (all_bytes answers) refl
      (inr refl) (omega arith)
