-- ===== src/Prelude/Decimal/Laws.antt =====
-- What is printed by `sprintf` is read back by `strtol` and `strtoul`, and how long it is.
use Prim.Native.Nat.{ℕ, zero, suc, ◌+◌, ◌-◌, ◌*◌, ◌/◌, ◌%◌, ◌^◌, ◌≤◌, ◌<◌}
use mathlib.Core.Path.{◌≡◌, refl, sym, ◌∙◌, ap}
use mathlib.Core.Bool.{true, false}
use mathlib.Core.List.{[], ◌∷◌, ◌++◌, append-nil}
use native.Mathlib.Omega.{arith}
use native.Mathlib.Nat.{pow-suc}
use monitor_node.Prelude.Int.{ℤ, pos, negsuc, ◌≤ℤ◌}
use monitor_node.Prelude.CString.{Str}
use monitor_node.Prelude.Lists.{length, drop}
use monitor_node.Prelude.Decimal.{
  emit, print_unsigned, print_int, is_digit, scan, skip_space, signed, clamp_signed, strtoul,
  strtol, NoDigit,
}

scan-NoDigit : (acc : ℕ) (s : Str) → NoDigit s → scan acc s ≡ (acc, s)
unfolding scan
scan-NoDigit acc [] h = refl
scan-NoDigit acc (c ∷ s) h = ground arith

scan-digit : (acc d : ℕ) (s : Str) → d < 10 → scan acc ((b'0' + d) ∷ s) ≡ scan (acc * 10 + d) s
unfolding scan
scan-digit acc d s h =
    let e : b'0' + d - b'0' ≡ d = omega arith in
    let t : is_digit (b'0' + d) ≡ true = ground arith in rw (t, e)

emit_more :
    (f n : ℕ) (out : Str) → 0 < n → emit (suc f) n out ≡ emit f (n / 10) ((b'0' + n % 10) ∷ out)
unfolding emit
emit_more f n out h = ground arith

print_unsigned-emit : (n : ℕ) → 0 < n → print_unsigned n ≡ emit n n []
unfolding print_unsigned
print_unsigned-emit n h = ground arith

scan-emit_step : (n : ℕ) (out : Str) → scan (n / 10) ((b'0' + n % 10) ∷ out) ≡ scan n out
scan-emit_step n out =
    let e : n / 10 * 10 + n % 10 ≡ n = omega arith in
    rw (scan-digit (n / 10) (n % 10) out (omega arith), e)

-- Scanning a printed number is scanning the rest with the number read.
scan-emit : (f n : ℕ) (out : Str) → n ≤ f → scan 0 (emit f n out) ≡ scan n out
unfolding emit
scan-emit zero n out h = let e : n ≡ 0 = omega arith in rw e
scan-emit (suc f) zero out h = refl
scan-emit (suc f) (suc n) out h =
    rw (emit_more f (suc n) out (omega arith))
      (scan-emit f (suc n / 10) _ (omega arith) ∙ scan-emit_step (suc n) out)

emit-append : (f n : ℕ) (out rest : Str) → emit f n out ++ rest ≡ emit f n (out ++ rest)
unfolding emit
emit-append zero n out rest = refl
emit-append (suc f) n out rest = ground (arith, emit-append f (n / 10) ((b'0' + n % 10) ∷ out) rest)

-- What is printed is read back, and the scan stops behind it.
pub scan-print_unsigned :
    (n : ℕ) (rest : Str) → NoDigit rest → scan 0 (print_unsigned n ++ rest) ≡ (n, rest)
scan-print_unsigned zero rest h =
    unfold print_unsigned in (scan-digit 0 0 rest (omega arith) ∙ scan-NoDigit 0 rest h)
scan-print_unsigned (suc n) rest h =
    rw (print_unsigned-emit (suc n) (omega arith), emit-append (suc n) (suc n) [] rest)
      (scan-emit (suc n) (suc n) rest (omega arith) ∙ scan-NoDigit (suc n) rest h)

-- The text begins with a digit.
abbrev DigitHead : Str → Type 0
DigitHead [] = ⊥
DigitHead (c ∷ s) = is_digit c ≡ true

emit-DigitHead : (f n : ℕ) (out : Str) → DigitHead out → DigitHead (emit f n out)
unfolding emit
emit-DigitHead zero n out h = h
emit-DigitHead (suc f) zero out h = h
emit-DigitHead (suc f) (suc n) out h =
    rw (emit_more f (suc n) out (omega arith))
      (emit-DigitHead f (suc n / 10) ((b'0' + suc n % 10) ∷ out) (ground arith))

pub print_unsigned-DigitHead : (n : ℕ) → DigitHead (print_unsigned n)
print_unsigned-DigitHead zero = unfold print_unsigned in refl
print_unsigned-DigitHead (suc n) =
    rw (print_unsigned-emit (suc n) (omega arith), emit_more n (suc n) [] (omega arith))
      (emit-DigitHead n (suc n / 10) ((b'0' + suc n % 10) ∷ []) (ground arith))

signed-digits : (s : Str) → DigitHead s → signed (skip_space s) ≡ (false, (scan 0 s).0)
unfolding signed skip_space
signed-digits [] h = absurd h
signed-digits (c ∷ s) h = ground arith

signed-minus : (s : Str) → signed (skip_space (b'-' ∷ s)) ≡ (true, (scan 0 s).0)
unfolding signed skip_space
signed-minus s = refl

scan_all : (n : ℕ) → scan 0 (print_unsigned n) ≡ (n, [])
scan_all n = rw append-nil at (scan-print_unsigned n [] tt)

signed-print_unsigned : (n : ℕ) → signed (skip_space (print_unsigned n)) ≡ (false, n)
signed-print_unsigned n =
    rw (signed-digits (print_unsigned n) (print_unsigned-DigitHead n), scan_all n)

-- `strtoul` reads back what `%lu` printed, for every `unsigned long`.
pub strtoul-print_unsigned : (n : ℕ) → n < 2 ^ 64 → strtoul (print_unsigned n) ≡ n
unfolding strtoul
strtoul-print_unsigned n h = rw (signed-print_unsigned n) (ground arith)

-- The range of an `int`.
pub record IsInt (a : ℤ) : Type 0 where
  pub above : negsuc (2 ^ 31 - 1) ≤ℤ a
  pub below : a ≤ℤ pos (2 ^ 31 - 1)

-- `strtol` reads back what `%d` printed, for every `int`.
pub strtol-print_int : (a : ℤ) → IsInt a → strtol (print_int a) ≡ a
unfolding strtol print_int clamp_signed
strtol-print_int (pos n) h = rw (signed-print_unsigned n) (ground arith)
strtol-print_int (negsuc n) h =
    ap clamp_signed (ap (λ (r : ℕ × Str). (true, r.0)) (scan_all (suc n))) ∙ ground arith

DigitHead-ne-minus : (p s t : Str) → DigitHead p → p ++ s ≡ b'-' ∷ t → ⊥
DigitHead-ne-minus [] s t h e = absurd h
DigitHead-ne-minus (c ∷ p) s t h e = ground arith

print_unsigned-injective :
    (a b : ℕ) (s t : Str)
    → NoDigit s
    → NoDigit t
    → print_unsigned a ++ s ≡ print_unsigned b ++ t
    → ◌≡◌ {A = ℕ × Str} (a, s) (b, t)
print_unsigned-injective a b s t hs ht e =
    sym (scan-print_unsigned a s hs) ∙ ap (scan 0) e ∙ scan-print_unsigned b t ht

-- A number printed in front of a text that begins with no digit can be told from the text.
pub print_int-injective :
    (a b : ℤ) (s t : Str)
    → NoDigit s
    → NoDigit t
    → print_int a ++ s ≡ print_int b ++ t
    → (a ≡ b) × (s ≡ t)
unfolding print_int
print_int-injective (pos a) (pos b) s t hs ht e =
    let p = print_unsigned-injective a b s t hs ht e in
    (ap (λ (q : ℕ × Str). pos q.0) p, ap (λ (q : ℕ × Str). q.1) p)
print_int-injective (pos a) (negsuc b) s t hs ht e =
    absurd (DigitHead-ne-minus (print_unsigned a) s _ (print_unsigned-DigitHead a) e)
print_int-injective (negsuc a) (pos b) s t hs ht e =
    absurd (DigitHead-ne-minus (print_unsigned b) t _ (print_unsigned-DigitHead b) (sym e))
print_int-injective (negsuc a) (negsuc b) s t hs ht e =
    let p = print_unsigned-injective (suc a) (suc b) s t hs ht (ap (drop 1) e) in
    let n : suc a ≡ suc b = ap (λ (q : ℕ × Str). q.0) p in
    (ground arith, ap (λ (q : ℕ × Str). q.1) p)

length-emit : (k f n : ℕ) (out : Str) → n < 10 ^ k → length (emit f n out) ≤ k + length out
unfolding emit
length-emit k zero n out h = omega arith
length-emit zero (suc f) n out h = let e : n ≡ 0 = omega arith in rw e (omega arith)
length-emit (suc k) (suc f) n out h =
    let b : n / 10 < 10 ^ k = omega (arith, pow-suc 10 k) in
    ground (arith, length-emit k f (n / 10) ((b'0' + n % 10) ∷ out) b)

-- A number below 10 ^ k, k > 0, is printed in k digits at most.
pub length-print_unsigned : (k n : ℕ) → n < 10 ^ suc k → length (print_unsigned n) ≤ suc k
unfolding print_unsigned
length-print_unsigned k n h = ground (arith, length-emit (suc k) n n [] h)

-- `%d` prints an `int` in 11 characters at most.
pub length-print_int : (a : ℤ) → IsInt a → length (print_int a) ≤ 11
unfolding print_int
length-print_int (pos n) h = omega (arith, length-print_unsigned 9 n (omega arith))
length-print_int (negsuc n) h = omega (arith, length-print_unsigned 9 (suc n) (omega arith))
