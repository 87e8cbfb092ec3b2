-- ===== src/Tests.antt =====
-- Runs of the theorems on concrete nodes.
mod Codec
pub mod Fixtures
mod Manager
mod Firmware
mod Operators
mod Rounds
mod Rules
mod Lines
mod Devices
mod Groups
mod Nodes
mod Buses
mod Uses
mod Configured
