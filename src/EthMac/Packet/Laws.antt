-- ===== src/EthMac/Packet/Laws.antt =====
-- What becomes of a message that is sent by MAC address, at the receiver.
use monitor_node.Prelude.{
  ℕ, zero, suc, ◌+◌, ◌<◌, ◌≡◌, refl, sym, ap, ◌∙◌, pos, success, Str, text_at, false, none, some,
  List, [], ◌∷◌, ◌++◌, length, length-append, drop, replicate, ltb, lt→ltb, le→ltb, arith, ltb_ℤ,
}
use monitor_node.Firmware.Fill.Laws.{IsText}
use monitor_node.EthMac.Packet.{
  Macs, Calls, max_eth_data_length, packet_of, receive_packet_by_mac_addr, send_packet,
}

text_at-text : (s : Str) → IsText s → text_at s ≡ none
unfolding text_at
text_at-text [] t = refl
text_at-text (zero ∷ s) t = absurd (t.0 refl)
text_at-text (suc c ∷ s) t = rw (text_at-text s t.1) refl

text_at-padded : (s : Str) (k : ℕ) → IsText s → text_at (s ++ 0 ∷ replicate k 0) ≡ some s
unfolding text_at
text_at-padded [] k t = refl
text_at-padded (zero ∷ s) k t = absurd (t.0 refl)
text_at-padded (suc c ∷ s) k t = rw (text_at-padded s k t.1) refl

-- The socket calls of the receiver succeed, and the packet is there.
abbrev pub gets : List ℕ → ℕ → Calls
gets packet fd = record {
  socket = pos fd;
  ioctl = pos 0;
  bind = pos 0;
  sendto = pos 0;
  select = pos 1;
  packet = some packet;
}

-- The addresses have six bytes.
abbrev pub Six : Macs → Type 0
Six macs = (length macs.srcmac ≡ 6) × (length macs.dstmac ≡ 6)

drop-append : {A : Type 0} (n : ℕ) (xs ys : List A) → length xs ≡ n → drop n (xs ++ ys) ≡ ys
drop-append zero [] ys h = refl
drop-append zero (x ∷ xs) ys h = absurd (omega arith)
drop-append (suc n) [] ys h = absurd (omega arith)
drop-append (suc n) (x ∷ xs) ys h = drop-append n xs ys (omega arith)

drop-nil : {A : Type 0} (n : ℕ) → drop {A = A} n [] ≡ []
drop-nil zero = refl
drop-nil (suc n) = refl

drop_twice : {A : Type 0} (a b : ℕ) (xs : List A) → drop (a + b) xs ≡ drop b (drop a xs)
drop_twice zero b xs = ap (λ n. drop n xs) (omega arith)
drop_twice (suc a) b [] = drop-nil (suc a + b) ∙ sym (drop-nil b)
drop_twice (suc a) b (x ∷ xs) =
    let e : suc a + b ≡ suc (a + b) = omega arith in ap (λ n. drop n (x ∷ xs)) e ∙ drop_twice a b xs

-- What comes after the two addresses.
after_macs :
    (macs : Macs) (rest : List ℕ) → Six macs → drop 12 (macs.dstmac ++ (macs.srcmac ++ rest)) ≡ rest
after_macs macs rest (s, d) =
    drop_twice 6 6 (macs.dstmac ++ (macs.srcmac ++ rest))
    ∙ ap (drop 6) (drop-append 6 macs.dstmac (macs.srcmac ++ rest) d)
    ∙ drop-append 6 macs.srcmac rest s

long_enough :
    (macs : Macs) (rest : List ℕ) → Six macs → ltb (length (packet_of macs rest)) 14 ≡ false
long_enough macs rest (s, d) = le→ltb (length (packet_of macs rest)) 14 (
    omega (
      arith,
      s,
      d,
      length-append macs.dstmac (macs.srcmac ++ 8 ∷ 12 ∷ rest),
      length-append macs.srcmac (8 ∷ 12 ∷ rest),
    ))

after_header : (macs : Macs) (rest : List ℕ) → Six macs → drop 14 (packet_of macs rest) ≡ rest
after_header macs rest h =
    drop_twice 12 2 (packet_of macs rest) ∙ ap (drop 2) (after_macs macs (8 ∷ 12 ∷ rest) h)

not_negative : (fd : ℕ) → ltb_ℤ (pos fd) (pos 0) ≡ false
not_negative fd = ground arith

-- The receiver's answer to a packet of ours with `rest` behind the protocol's bytes.
got :
    (fd : ℕ) (macs : Macs) (rest text : List ℕ) (name : Str)
    → Six macs
    → text_at rest ≡ some text
    → length text < max_eth_data_length
    → receive_packet_by_mac_addr (gets (packet_of macs rest) fd) (some name)
      ≡ some record { code = success; msg = some text; closed_fds = pos fd ∷ [] }
unfolding receive_packet_by_mac_addr
got fd macs rest text name h t l =
    rw
      (
        long_enough macs rest h,
        after_macs macs (8 ∷ 12 ∷ rest) h,
        after_header macs rest h,
        t,
        lt→ltb (length text) max_eth_data_length l,
        not_negative fd,
      )
      refl

got_fault :
    (fd : ℕ) (macs : Macs) (rest : List ℕ) (name : Str)
    → Six macs
    → text_at rest ≡ none
    → receive_packet_by_mac_addr (gets (packet_of macs rest) fd) (some name) ≡ none
unfolding receive_packet_by_mac_addr
got_fault fd macs rest name h t =
    rw
      (
        long_enough macs rest h,
        after_macs macs (8 ∷ 12 ∷ rest) h,
        after_header macs rest h,
        t,
        not_negative fd,
      )
      refl

-- Two MAC addresses of six bytes are set, and a message without a zero byte, of fewer than 2048
-- characters, goes out by MAC address over calls that succeed, in one packet. When the packet comes
-- to a receiver with a zero byte or more behind it, as the card pads a short one, the receiver gives
-- the message and the code 0. When it comes as it was sent, the receiver reads beyond the payload,
-- since the message goes out without its terminating zero.
pub send_packet-receive :
    (macs : Macs) (message : Str) (k out fd : ℕ) (name : Str)
    → Six macs
    → IsText message
    → length message < max_eth_data_length
    → (send_packet (gets [] out) macs message ≡ record {
      code = success;
      macs = macs;
      put = some (packet_of macs message);
      closed_fds = pos out ∷ [];
    })
      × (receive_packet_by_mac_addr
            (gets (packet_of macs (message ++ 0 ∷ replicate k 0)) fd)
            (some name)
          ≡ some record { code = success; msg = some message; closed_fds = pos fd ∷ [] })
      × (receive_packet_by_mac_addr (gets (packet_of macs message) fd) (some name) ≡ none)
unfolding send_packet
send_packet-receive macs message k out fd name h t l = (
  rw (not_negative out) refl,
  got fd macs (message ++ 0 ∷ replicate k 0) message name h (text_at-padded message k t) l,
  got_fault fd macs message name h (text_at-text message t),
)
