-- ===== src/EthMac.antt =====
-- src/base/eth_recv_send_by_mac_addr.c, eth_recv_send_xy.c: packets by MAC address.
pub mod Address
pub mod Packet
pub mod Xy
