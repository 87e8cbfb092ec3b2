-- ===== src/EthMac/Address/Laws.antt =====
-- Reading back a MAC address that was printed in the usual form.
use monitor_node.Prelude.{
  ℕ, suc, ◌+◌, ◌/◌, ◌%◌, ◌<◌, ltb, ◌==◌, ◌≡◌, refl, ap, ◌∙◌, pos, Str, false, some, List, [], ◌∷◌,
  ◌++◌, All, set, arith, if◌then◌else◌,
}
use monitor_node.EthMac.Address.{
  hex_value, hex_byte, drop_3, skip_colon, mac_loop, string_to_mac_address,
}

abbrev pub hex_digit : ℕ → ℕ
hex_digit d = if ltb d 10 then d + 48 else d + 87

abbrev pub hex_pair : ℕ → Str
hex_pair b = hex_digit (b / 16) ∷ hex_digit (b % 16) ∷ []

-- The bytes, with colons between them.
abbrev pub mac_text : List ℕ → Str
mac_text [] = []
mac_text (b ∷ []) = hex_pair b
mac_text (b ∷ c ∷ bs) = hex_pair b ++ (b':' ∷ mac_text (c ∷ bs))

hex_value-digit : (d : ℕ) → d < 16 → hex_value (hex_digit d) ≡ some d
unfolding hex_value
hex_value-digit d h = ground arith

not_colon : (d : ℕ) → d < 16 → (hex_digit d == b':') ≡ false
not_colon d h = ground arith

hex_byte-pair : (b : ℕ) → b < 256 → hex_byte (hex_pair b) ≡ some b
unfolding hex_byte
hex_byte-pair b h =
    rw (hex_value-digit (b / 16) (omega (arith, h)), hex_value-digit (b % 16) (omega (arith, h)))
      (ap some (omega arith))

-- One turn of the loop, for two characters that are a byte.
mac_loop_turn :
    (n i v x y : ℕ) (s : Str) (addr : List ℕ)
    → (x == b':') ≡ false
    → hex_byte (x ∷ y ∷ []) ≡ some v
    → mac_loop (suc n) i (some (x ∷ y ∷ s)) addr
      ≡ mac_loop n (suc i) (drop_3 (x ∷ y ∷ s)) (set addr i v)
unfolding mac_loop
mac_loop_turn n i v x y s addr e h =
    let kept : skip_colon (x ∷ y ∷ s) ≡ x ∷ y ∷ s = rw e refl in
    rw (mac_loop, e, h) (ap (λ t. mac_loop n (suc i) (drop_3 t) (set addr i v)) kept)

mac_loop_pair :
    (n i b : ℕ) (s : Str) (addr : List ℕ)
    → b < 256
    → mac_loop (suc n) i (some (hex_pair b ++ s)) addr
      ≡ mac_loop n (suc i) (drop_3 (hex_pair b ++ s)) (set addr i b)
mac_loop_pair n i b s addr h =
    mac_loop_turn n i b (hex_digit (b / 16)) (hex_digit (b % 16)) s addr
      (not_colon (b / 16) (omega (arith, h))) (hex_byte-pair b h)

-- A MAC address printed as six pairs of digits with colons between them is read back as its six
-- bytes, with the code 0, whatever the array held before.
pub string_to_mac_address-mac_text :
    (b0 b1 b2 b3 b4 b5 : ℕ) (o0 o1 o2 o3 o4 o5 : ℕ)
    → All (λ b. b < 256) (b0 ∷ b1 ∷ b2 ∷ b3 ∷ b4 ∷ b5 ∷ [])
    → string_to_mac_address
        (some (mac_text (b0 ∷ b1 ∷ b2 ∷ b3 ∷ b4 ∷ b5 ∷ [])))
        (o0 ∷ o1 ∷ o2 ∷ o3 ∷ o4 ∷ o5 ∷ [])
      ≡ some (pos 0, b0 ∷ b1 ∷ b2 ∷ b3 ∷ b4 ∷ b5 ∷ [])
unfolding string_to_mac_address
string_to_mac_address-mac_text b0 b1 b2 b3 b4 b5 o0 o1 o2 o3 o4 o5
      (h0, (h1, (h2, (h3, (h4, (h5, _)))))) =
    mac_loop_pair 5 0 b0 _ _ h0
    ∙ mac_loop_pair 4 1 b1 _ _ h1
    ∙ mac_loop_pair 3 2 b2 _ _ h2
    ∙ mac_loop_pair 2 3 b3 _ _ h3
    ∙ mac_loop_pair 1 4 b4 _ _ h4
    ∙ mac_loop_pair 0 5 b5 [] _ h5
