-- ===== src/EthMac/Packet.antt =====
-- src/base/eth_recv_send_by_mac_addr.c: `send_packet_by_mac_addr` and `receive_packet_by_mac_addr`.
-- The system calls are parameters. `none` is a fault: a read or write outside of an array.
pub mod Laws
use monitor_node.Prelude.{
  ℕ, ◌+◌, ◌<◌, ltb, eqb_ℤ, ltb_ℤ, ℤ, pos, negsuc, error, success, Str, text_at, Bool, ◌&&◌, ◌==◌,
  Option, none, some, List, [], ◌∷◌, ◌++◌, false, length, take, drop, if◌then◌else◌, ◌>>=◌,
}
use monitor_node.EthMac.Address.{string_to_mac_address}

-- The globals `srcmac` and `dstmac`, of six bytes.
pub record Macs : Type 0 where
  pub srcmac : List ℕ
  pub dstmac : List ℕ

-- What the system calls answer; `select` gives 1 when a packet is there, which is `packet`, or `none`
-- when `recvfrom` fails.
pub record Calls : Type 0 where
  pub socket : ℤ
  pub ioctl : ℤ
  pub bind : ℤ
  pub sendto : ℤ
  pub select : ℤ
  pub packet : Option (List ℕ)

-- The bytes of `ETH_P_SNMP`, 0x080C, in network order.
abbrev pub eth_p_snmp : List ℕ
eth_p_snmp = 8 ∷ 12 ∷ []

-- `MAX_ETH_DATA_LENGTH`
abbrev pub max_eth_data_length : ℕ
max_eth_data_length = 2048

-- The code, the globals, the packet given to `sendto`, and the sockets that are closed.
pub record Output : Type 0 where
  pub code : ℤ
  pub macs : Macs
  pub put : Option (List ℕ)
  pub closed_fds : List ℤ

-- The label `error`: the socket is closed if there is one other than 0.
abbrev pub closed_at_error : ℤ → List ℤ
closed_at_error sockfd = if ltb_ℤ (pos 0) sockfd then sockfd ∷ [] else []

abbrev pub packet_of : Macs → Str → List ℕ
packet_of macs message = macs.dstmac ++ (macs.srcmac ++ (eth_p_snmp ++ message))

-- The part after the addresses were read.
unfoldable pub send_packet : Calls → Macs → Str → Output
send_packet c macs message =
    let refused : Output = record {
      code = error;
      macs = macs;
      put = none;
      closed_fds = closed_at_error c.socket;
    } in
    let packet = packet_of macs message in
    if ltb_ℤ c.socket (pos 0)
    then refused
    else if ltb_ℤ c.ioctl (pos 0)
    then refused
    else if ltb_ℤ c.sendto (pos 0)
    then record {
      code = error;
      macs = macs;
      put = some packet;
      closed_fds = closed_at_error c.socket;
    }
    else record { code = success; macs = macs; put = some packet; closed_fds = c.socket ∷ [] }

-- The codes of the two calls of `stringToMacAddress` are not looked at.
unfoldable pub send_packet_by_mac_addr :
    Calls → Macs → Option Str → Option Str → Option Str → Option Str → Option Output
unfolding send_packet
send_packet_by_mac_addr c macs (some name) (some message) (some shost) (some dhost) =
    string_to_mac_address (some shost) macs.srcmac >>= λ (src_code, src).
    string_to_mac_address (some dhost) macs.dstmac >>= λ (dst_code, dst).
    some (send_packet c record { srcmac = src; dstmac = dst } message)
send_packet_by_mac_addr c macs name message shost dhost =
    some record { code = error; macs = macs; put = none; closed_fds = [] }

-- The code, the text in the buffer `msg` of `max_eth_data_length` bytes, if one was put there, and
-- the sockets that are closed.
pub record Input : Type 0 where
  pub code : ℤ
  pub msg : Option Str
  pub closed_fds : List ℤ

abbrev pub not_got : ℤ → Input
not_got sockfd = record { code = error; msg = none; closed_fds = closed_at_error sockfd }

-- The bytes of `ether_type`
abbrev pub header_is_snmp : List ℕ → Bool
header_is_snmp [] = false
header_is_snmp (a ∷ []) = false
header_is_snmp (a ∷ b ∷ rest) = (a == 8) && (b == 12)

-- A packet of the protocol gives its payload, which is read up to a zero byte and copied with it.
abbrev pub read_packet : ℤ → Option (List ℕ) → Option Input
read_packet sockfd none = some (not_got sockfd)
read_packet sockfd (some packet) =
    if ltb (length packet) 14
    then none
    else if header_is_snmp (drop 12 packet)
    then (text_at (drop 14 packet) >>= λ text.
        if ltb (length text) max_eth_data_length
        then some record { code = success; msg = some text; closed_fds = sockfd ∷ [] }
        else none)
    else some (not_got sockfd)

unfoldable pub receive_packet_by_mac_addr : Calls → Option Str → Option Input
receive_packet_by_mac_addr c none = some record { code = error; msg = none; closed_fds = [] }
receive_packet_by_mac_addr c (some name) =
    if ltb_ℤ c.socket (pos 0)
    then some (not_got c.socket)
    else if ltb_ℤ c.ioctl (pos 0)
    then some (not_got c.socket)
    else if ltb_ℤ c.bind (pos 0)
    then some (not_got c.socket)
    else if eqb_ℤ c.select (pos 1)
    then read_packet c.socket c.packet
    else some (not_got c.socket)
