-- ===== src/EthMac/Xy.antt =====
-- src/base/eth_recv_send_xy.c: packets by MAC address over a socket that is open. The function
-- `stringToMacAddress_xy` has the text of `stringToMacAddress`, of Address. The printing is left
-- out. `none` is a fault: a read or write outside of an array.
pub mod Laws
use monitor_node.Prelude.{
  ℕ, ltb, eqb_ℤ, ltb_ℤ, ℤ, pos, error, success, Str, text_at, Bool, Option, none, some, List, drop,
  length, if◌then◌else◌, ◌>>=◌,
}
use monitor_node.EthMac.Address.{string_to_mac_address}
use monitor_node.EthMac.Packet.{Macs, max_eth_data_length, packet_of, header_is_snmp}

-- What `select` answers, 1 when a packet is there, and the packet, or `none` when `recvfrom` fails.
pub record XyCalls : Type 0 where
  pub select : ℤ
  pub packet : Option (List ℕ)
  pub sendto : ℤ

-- The code, and the text in the buffer `msg`, if one was put there.
pub record XyInput : Type 0 where
  pub code : ℤ
  pub msg : Option Str

abbrev pub nothing_got : ℤ → Option XyInput
nothing_got code = some record { code = code; msg = none }

abbrev pub read_packet_xy : Option (List ℕ) → Option XyInput
read_packet_xy none = nothing_got error
read_packet_xy (some packet) =
    if ltb (length packet) 14
    then none
    else if header_is_snmp (drop 12 packet)
    then (text_at (drop 14 packet) >>= λ text.
        if ltb (length text) max_eth_data_length
        then some record { code = success; msg = some text }
        else none)
    else nothing_got success

-- A packet of another protocol leaves the buffer, and the code is that of success.
unfoldable pub receive_packet_xy : XyCalls → Option XyInput
receive_packet_xy c = if eqb_ℤ c.select (pos 1) then read_packet_xy c.packet else nothing_got error

-- The code, the globals, and the packet given to `sendto`.
pub record XyOutput : Type 0 where
  pub code : ℤ
  pub macs : Macs
  pub put : Option (List ℕ)

unfoldable pub send_packet_xy :
    XyCalls → Macs → ℤ → Option Str → Option Str → Option Str → Option XyOutput
send_packet_xy c macs sockfd (some message) (some shost) (some dhost) =
    if ltb_ℤ sockfd (pos 0)
    then some record { code = error; macs = macs; put = none }
    else (string_to_mac_address (some shost) macs.srcmac >>= λ (src_code, src).
        string_to_mac_address (some dhost) macs.dstmac >>= λ (dst_code, dst).
        let macs1 : Macs = record { srcmac = src; dstmac = dst } in
        some record {
          code = if ltb_ℤ c.sendto (pos 0) then error else success;
          macs = macs1;
          put = some (packet_of macs1 message);
        })
send_packet_xy c macs sockfd message shost dhost =
    some record { code = error; macs = macs; put = none }
