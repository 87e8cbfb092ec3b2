-- ===== src/Rs485.antt =====
-- src/base/rs485_recv_send.c: the driver of a serial line.
pub mod Send
pub mod Receive
pub mod Port
