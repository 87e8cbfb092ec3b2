-- ===== src/OneInterface.antt =====
-- src/one_interface_operator.c: what one interface does in one round, as a tester or as a listener.
mod State
pub mod Choose
pub mod Deal
pub mod Round
pub mod Listen
pub mod System
unfoldable pub use State.*
