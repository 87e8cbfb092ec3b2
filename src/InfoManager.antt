-- ===== src/InfoManager.antt =====
-- src/base/info_manager.h and info_manager.c: the tables that the program keeps, the interfaces of
-- this node and the communication results, and the functions over them.
mod Types
pub mod Interfaces
pub mod Start
pub mod Status
pub mod Records
pub mod Json
pub mod Newest
pub mod File
pub mod Sync
pub mod Legal
pub mod Configuration
pub use Types.*
