-- ===== src/Initializer.antt =====
-- src/initializer_closer_lib.c: opening and closing the device of an interface.
pub mod Common
pub mod Eth
pub mod Serial
pub mod Can
pub mod Transfer
