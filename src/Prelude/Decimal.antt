-- ===== src/Prelude/Decimal.antt =====
-- `%d` and `%lu` of `sprintf`, and `strtol` and `strtoul` in base ten.
pub mod Laws
use Prim.Native.Nat.{ℕ, zero, suc, ◌+◌, ◌-◌, ◌*◌, ◌/◌, ◌%◌, ◌^◌, ◌≤◌, ◌<◌}
use mathlib.Core.Path.{◌≡◌, refl, sym, ◌∙◌, ap}
use mathlib.Core.Bool.{Bool, true, false, ◌&&◌, ◌||◌}
use mathlib.Core.List.{List, [], ◌∷◌, ◌++◌, append-nil}
use native.Mathlib.Omega.{arith}
use native.Mathlib.Nat.{pow-suc}
use monitor_node.Prelude.Tests.{ltb, leb, ◌==◌, if◌then◌else◌}
use monitor_node.Prelude.Int.{ℤ, pos, negsuc, to_i32, to_i32_id, neg_ℕ, ◌≤ℤ◌}
use monitor_node.Prelude.CString.{Str}
use monitor_node.Prelude.Lists.{length, drop}

-- The digits of `n` in front of `out`, on fuel.
emit : ℕ → ℕ → Str → Str
emit zero n out = out
emit (suc f) n out =
    let rest = emit f (n / 10) ((b'0' + n % 10) ∷ out) in if n == 0 then out else rest

-- `%lu`; a number is at least its number of digits, so `n` is fuel enough.
unfoldable pub print_unsigned : ℕ → Str
unfolding emit
print_unsigned n = if n == 0 then b'0' ∷ [] else emit n n []

-- `%d`
unfoldable pub print_int : ℤ → Str
unfolding print_unsigned
print_int (pos n) = print_unsigned n
print_int (negsuc n) = b'-' ∷ print_unsigned (suc n)

abbrev pub is_digit : ℕ → Bool
is_digit c = leb b'0' c && leb c b'9'

-- The value of the digits at the start, and the rest.
unfoldable pub scan : ℕ → Str → ℕ × Str
scan acc [] = (acc, [])
scan acc (c ∷ s) =
    let rest = scan (acc * 10 + (c - b'0')) s in if is_digit c then rest else (acc, c ∷ s)

-- `isspace` in the C locale.
abbrev is_space : ℕ → Bool
is_space c = c == b' ' || (leb 9 c && leb c 13)

skip_space : Str → Str
skip_space [] = []
skip_space (c ∷ s) = if is_space c then skip_space s else c ∷ s

-- A number with an optional sign: whether it is negative, and its size.
signed : Str → Bool × ℕ
signed [] = (false, 0)
signed (c ∷ s) =
    if c == b'-'
    then (true, (scan 0 s).0)
    else if c == b'+'
    then (false, (scan 0 s).0)
    else (false, (scan 0 (c ∷ s)).0)

clamp_unsigned : Bool × ℕ → ℕ
clamp_unsigned (minus, n) =
    if leb (2 ^ 64) n then 2 ^ 64 - 1 else if minus then (2 ^ 64 - n) % 2 ^ 64 else n

clamp_signed : Bool × ℕ → ℤ
clamp_signed (true, n) = if ltb (2 ^ 63) n then negsuc (2 ^ 63 - 1) else neg_ℕ n
clamp_signed (false, n) = if leb (2 ^ 63) n then pos (2 ^ 63 - 1) else pos n

-- `strtoul(s, NULL, 10)`
unfoldable pub strtoul : Str → ℕ
unfolding skip_space signed clamp_unsigned scan
strtoul s = clamp_unsigned (signed (skip_space s))

-- `strtol(s, NULL, 10)`
unfoldable pub strtol : Str → ℤ
unfolding skip_space signed clamp_signed scan
strtol s = clamp_signed (signed (skip_space s))

-- The text does not begin with a digit.
abbrev pub NoDigit : Str → Type 0
NoDigit [] = Unit {0}
NoDigit (c ∷ s) = is_digit c ≡ false
