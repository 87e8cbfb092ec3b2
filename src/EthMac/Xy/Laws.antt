-- ===== src/EthMac/Xy/Laws.antt =====
-- How the two receivers of packets by MAC address differ.
use monitor_node.Prelude.{
  ℕ, ◌≡◌, refl, ◌∙◌, ltb, ltb_ℤ, ℤ, pos, success, Str, text_at, false, some, List, drop, length,
  ◌>>=◌, Bool-cases, Option-cases, inl, inr, arith,
}
use monitor_node.EthMac.Packet.{
  Input, max_eth_data_length, header_is_snmp, read_packet, receive_packet_by_mac_addr,
}
use monitor_node.EthMac.Packet.Laws.{gets}
use monitor_node.EthMac.Xy.{XyInput, read_packet_xy, receive_packet_xy}

-- The answer with the code 0 in place of the other receiver's.
abbrev pub as_success : Input → XyInput
as_success r = record { code = success; msg = r.msg }

same_packet :
    (fd : ℤ) (packet : List ℕ)
    → read_packet_xy (some packet) ≡ (read_packet fd (some packet) >>= λ r. some (as_success r))
same_packet fd packet = elim (Bool-cases (ltb (length packet) 14)) [
  | inl e ↦ rw e refl
  | inr e ↦ elim (Bool-cases (header_is_snmp (drop 12 packet))) [
    | inr h ↦ rw (e, h) refl
    | inl h ↦ elim (Option-cases (text_at (drop 14 packet))) [
      | inl t ↦ rw (e, h, t) refl
      | inr (text, t) ↦ elim (Bool-cases (ltb (length text) max_eth_data_length)) [
        | inl l ↦ rw (e, h, t, l) refl
        | inr l ↦ rw (e, h, t, l) refl
      ]
    ]
  ]
]

-- When a packet is there and the calls succeed, the receiver on an open socket faults for the same
-- packets as the receiver by MAC address, and puts the same text in its buffer, or none; but its code
-- is 0 whatever the other's is, also for a packet of another protocol.
pub receive_packet_xy-by_mac_addr :
    (fd : ℕ) (name : Str) (packet : List ℕ)
    → receive_packet_xy record { select = pos 1; packet = some packet; sendto = pos 0 }
      ≡ (receive_packet_by_mac_addr (gets packet fd) (some name) >>= λ r. some (as_success r))
unfolding receive_packet_xy receive_packet_by_mac_addr
receive_packet_xy-by_mac_addr fd name packet =
    let e : ltb_ℤ (pos fd) (pos 0) ≡ false = ground arith in same_packet (pos fd) packet ∙ rw e refl
