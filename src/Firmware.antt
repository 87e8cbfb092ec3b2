-- ===== src/Firmware.antt =====
-- src/firmware.c: sending, receiving and the status of an interface, by the names of the functions
-- that its configuration gives.
pub mod Fill
pub mod Send
pub mod Receive
pub mod Status
pub mod Serial
