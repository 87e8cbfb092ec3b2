-- ===== src/Prelude/Buffer.antt =====
-- The memory functions of the C library on a buffer, the list of its bytes. `none` is an access
-- outside of the buffer.
use Prim.Native.Nat.{ℕ, zero, suc}
use mathlib.Core.Option.{Option, none, some}
use mathlib.Core.List.{List, [], ◌∷◌}
use monitor_node.Prelude.CString.{Str}
use monitor_node.Prelude.Pointer.{◌>>=◌}

abbrev cons_to : ℕ → Option (List ℕ) → Option (List ℕ)
cons_to b r = r >>= λ bs. some (b ∷ bs)

-- `strncpy(buffer, s, n)`: the text, and zeros up to `n` bytes.
unfoldable pub strncpy : List ℕ → Str → ℕ → Option (List ℕ)
strncpy buffer s zero = some buffer
strncpy [] s (suc n) = none
strncpy (b ∷ buffer) [] (suc n) = cons_to 0 (strncpy buffer [] n)
strncpy (b ∷ buffer) (c ∷ s) (suc n) = cons_to c (strncpy buffer s n)

-- `memset(buffer + p, 0, n)`
unfoldable pub memset_zero : List ℕ → ℕ → ℕ → Option (List ℕ)
memset_zero buffer zero zero = some buffer
memset_zero [] zero (suc n) = none
memset_zero (b ∷ buffer) zero (suc n) = cons_to 0 (memset_zero buffer zero n)
memset_zero [] (suc p) n = none
memset_zero (b ∷ buffer) (suc p) n = cons_to b (memset_zero buffer p n)

-- `buffer[i] = v`
unfoldable pub store : List ℕ → ℕ → ℕ → Option (List ℕ)
store [] i v = none
store (b ∷ buffer) zero v = some (v ∷ buffer)
store (b ∷ buffer) (suc i) v = cons_to b (store buffer i v)
