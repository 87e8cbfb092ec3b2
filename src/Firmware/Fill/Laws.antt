-- ===== src/Firmware/Fill/Laws.antt =====
-- The frame that `fillMessageToMaxMsgLen` of src/firmware.c makes, and when it faults.
use monitor_node.Prelude.{
  ℕ, zero, suc, ◌+◌, ◌-◌, ◌≤◌, ◌<◌, ◌≡◌, refl, ◌≢◌, inl, inr, Str, strlen, text_at, strncpy,
  memset_zero, store, not, ◌&&◌, none, some, List, [], ◌∷◌, ◌++◌, All, length, take, lt→ltb, le→ltb,
  ◌^◌, ◌==◌, arith, Bool-cases, if◌then◌else◌,
}
use monitor_node.Firmware.Fill.{size_diff, fill_message_to_max_msg_len}

-- The first `n` bytes of the text, and zeros up to `n` bytes.
abbrev pub pad : ℕ → Str → List ℕ
pad zero s = []
pad (suc n) [] = 0 ∷ pad n []
pad (suc n) (c ∷ s) = c ∷ pad n s

-- A text has no zero byte.
abbrev pub IsText : Str → Type 0
IsText = All (λ c. c ≢ 0)

pub strncpy-pad :
    (n g : ℕ) (old : List ℕ) (s : Str)
    → length old ≡ n
    → strncpy (old ++ g ∷ []) s n ≡ some (pad n s ++ g ∷ [])
unfolding strncpy
strncpy-pad zero g [] s h = refl
strncpy-pad zero g (b ∷ old) s h = absurd (omega arith)
strncpy-pad (suc n) g [] s h = absurd (omega arith)
strncpy-pad (suc n) g (b ∷ old) [] h = rw (strncpy-pad n g old [] (omega arith))
strncpy-pad (suc n) g (b ∷ old) (c ∷ s) h = rw (strncpy-pad n g old s (omega arith))

pub store_end : (n g : ℕ) (s : Str) → store (pad n s ++ g ∷ []) n 0 ≡ some (pad n s ++ 0 ∷ [])
unfolding store
store_end zero g s = refl
store_end (suc n) g [] = rw (store_end n g [])
store_end (suc n) g (c ∷ s) = rw (store_end n g s)

strlen-pad :
    (n g : ℕ) (s : Str) → IsText s → length s < n → strlen (pad n s ++ g ∷ []) ≡ some (length s)
unfolding strlen
strlen-pad zero g s t h = absurd (omega arith)
strlen-pad (suc n) g [] t h = refl
strlen-pad (suc n) g (zero ∷ s) t h = absurd (t.0 refl)
strlen-pad (suc n) g (suc c ∷ s) t h = rw (strlen-pad n g s t.1 (omega arith))

strlen-pad_full :
    (g : ℕ) (s : Str)
    → IsText s
    → strlen (pad (length s) s ++ g ∷ []) ≡ (if g == 0 then some (length s) else none)
unfolding strlen
strlen-pad_full zero [] t = refl
strlen-pad_full (suc g) [] t = ground arith
strlen-pad_full g (zero ∷ s) t = absurd (t.0 refl)
strlen-pad_full g (suc c ∷ s) t = ground (arith, strlen-pad_full g s t.1)

memset-pad_nil : (n g : ℕ) → memset_zero (pad n [] ++ g ∷ []) 0 n ≡ some (pad n [] ++ g ∷ [])
unfolding memset_zero
memset-pad_nil zero g = refl
memset-pad_nil (suc n) g = rw (memset-pad_nil n g)

memset-pad :
    (n g k : ℕ) (s : Str)
    → length s + k ≡ n
    → memset_zero (pad n s ++ g ∷ []) (length s) k ≡ some (pad n s ++ g ∷ [])
unfolding memset_zero
memset-pad n g k [] h = let e : k ≡ n = omega arith in rw e (memset-pad_nil n g)
memset-pad zero g k (c ∷ s) h = absurd (omega arith)
memset-pad (suc n) g k (c ∷ s) h = rw (memset-pad n g k s (omega arith))

size_diff_le : (a b : ℕ) → b ≤ a → a < 2 ^ 64 → size_diff a b ≡ a - b
size_diff_le a b h l = omega arith

-- A message longer than the frame is cut.
fill_long :
    (message : Str) (old : List ℕ) (g : ℕ)
    → length old < length message
    → fill_message_to_max_msg_len message (old ++ g ∷ []) (length old)
      ≡ some (pad (length old) message ++ 0 ∷ [])
unfolding fill_message_to_max_msg_len
fill_long message old g h =
    rw (strncpy-pad (length old) g old message refl)
      (rw (lt→ltb _ _ h) (store_end (length old) g message))

-- A shorter one is padded with zeros.
fill_short :
    (message : Str) (old : List ℕ) (g : ℕ)
    → IsText message
    → length message < length old
    → length old < 2 ^ 64
    → fill_message_to_max_msg_len message (old ++ g ∷ []) (length old)
      ≡ some (pad (length old) message ++ 0 ∷ [])
unfolding fill_message_to_max_msg_len
fill_short message old g t h l =
    let n = length old in
    rw
      (
        strncpy-pad n g old message refl,
        le→ltb n (length message) (omega arith),
        strlen-pad n g message t h,
        size_diff_le n (length message) (omega arith) l,
        memset-pad n g (n - length message) message (omega arith),
      )
      (store_end n g message)

-- A message of the frame's exact size leaves no zero in the first bytes.
fill_exact :
    (message : Str) (old : List ℕ) (g : ℕ)
    → IsText message
    → length message ≡ length old
    → length old < 2 ^ 64
    → fill_message_to_max_msg_len message (old ++ g ∷ []) (length old)
      ≡ (if g == 0 then some (pad (length old) message ++ 0 ∷ []) else none)
unfolding fill_message_to_max_msg_len
fill_exact message old g t e l =
    let n = length message in
    elim (Bool-cases (g == 0)) [
      | inr differs ↦
          rw (strncpy-pad (length old) g old message refl, ← e, le→ltb n n (omega arith))
            (rw (strlen-pad_full g message t, differs))
      | inl zeroed ↦
          rw (strncpy-pad (length old) g old message refl, ← e, le→ltb n n (omega arith))
            (rw (strlen-pad_full g message t, zeroed)
              (rw
                (
                  size_diff_le n n (omega arith) (omega arith),
                  memset-pad n g (n - n) message (omega arith),
                )
                (store_end n g message)))
    ]

-- What becomes of a message without a zero byte in a frame of `length old + 1` bytes, fewer than
-- 2^64 + 1, whose last byte held `g`: its first bytes, padded with zeros and terminated, except
-- that a message of exactly `length old` characters makes the function read and write outside of
-- the frame whenever `g` was not zero.
pub fill_message_to_max_msg_len_lem :
    (message : Str) (old : List ℕ) (g : ℕ)
    → IsText message
    → length old < 2 ^ 64
    → fill_message_to_max_msg_len message (old ++ g ∷ []) (length old) ≡ (
        if (length message == length old) && not (g == 0)
        then none
        else some (pad (length old) message ++ 0 ∷ []))
fill_message_to_max_msg_len_lem message old g t l =
    ground (arith, fill_long message old g, fill_short message old g t, fill_exact message old g t)

-- The text in the frame is the message, cut to `n` characters.
pub text_at-pad : (n : ℕ) (s : Str) → IsText s → text_at (pad n s ++ 0 ∷ []) ≡ some (take n s)
unfolding text_at
text_at-pad zero s t = refl
text_at-pad (suc n) [] t = refl
text_at-pad (suc n) (zero ∷ s) t = absurd (t.0 refl)
text_at-pad (suc n) (suc c ∷ s) t = rw (text_at-pad n s t.1)
