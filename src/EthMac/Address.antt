-- ===== src/EthMac/Address.antt =====
-- src/base/eth_recv_send_by_mac_addr.c: `stringToMacAddress`. `none` is a read beyond the end of the
-- text.
pub mod Laws
use monitor_node.Prelude.{
  ℕ, zero, suc, ◌+◌, ◌-◌, ◌*◌, ltb, ◌==◌, ℤ, pos, error, Str, Bool, ◌&&◌, ◌||◌, Option, none, some,
  List, [], ◌∷◌, set, take, if◌then◌else◌,
}

-- The value of a hexadecimal digit.
unfoldable pub hex_value : ℕ → Option ℕ
hex_value c =
    if ltb 47 c && ltb c 58
    then some (c - 48)
    else if ltb 96 c && ltb c 103
    then some (c - 87)
    else if ltb 64 c && ltb c 71
    then some (c - 55)
    else none

-- `isspace`
abbrev pub is_space : ℕ → Bool
is_space c = (c == 32) || (ltb 8 c && ltb c 14)

-- `strtol(hexByte, &end, 16)` on two characters, of which it takes both, with a value from 0 to 255:
-- two digits, or one digit behind a space or a sign.
unfoldable pub hex_byte : Str → Option ℕ
unfolding hex_value
hex_byte [] = none
hex_byte (a ∷ []) = none
hex_byte (a ∷ b ∷ []) = by_digits (hex_value a) (hex_value b)
  where
    by_digits : Option ℕ → Option ℕ → Option ℕ
    by_digits (some x) (some y) = some (16 * x + y)
    by_digits (some x) none = none
    by_digits none none = none
    by_digits none (some y) =
        if is_space a || (a == b'+')
        then some y
        else if (a == b'-') && (y == 0)
        then some 0
        else none
hex_byte (a ∷ b ∷ c ∷ s) = none

-- The text after `j += 3`; the terminating zero is the last character that can be read.
abbrev pub drop_3 : Str → Option Str
drop_3 (a ∷ b ∷ c ∷ s) = some s
drop_3 s = none

abbrev pub skip_colon : Str → Str
skip_colon [] = []
skip_colon (c ∷ s) = if c == b':' then s else c ∷ s

-- The loop, with `n` bytes missing and `i` of them written.
unfoldable pub mac_loop : ℕ → ℕ → Option Str → List ℕ → Option (ℤ × List ℕ)
unfolding hex_byte
mac_loop zero i s addr = some (pos 0, addr)
mac_loop (suc n) i none addr = none
mac_loop (suc n) i (some []) addr = some (error, addr)
mac_loop (suc n) i (some (c ∷ s)) addr =
    let t = skip_colon (c ∷ s) in
    elim (hex_byte (take 2 t)) [
      | none ↦ some (error, addr)
      | some v ↦ mac_loop n (suc i) (drop_3 t) (set addr i v)
    ]

-- The code, and the array after it.
unfoldable pub string_to_mac_address : Option Str → List ℕ → Option (ℤ × List ℕ)
unfolding mac_loop
string_to_mac_address none addr = some (error, addr)
string_to_mac_address (some s) addr = mac_loop 6 0 (some s) addr
