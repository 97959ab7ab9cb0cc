-- ===== src/Tests.antt =====
-- The theorems at concrete inputs, and runs of the definitions.
mod Blocks
mod Device
mod Cycle
mod Procedures
mod Ports
pub mod Whole
mod Tasks
mod Windows
mod Texts
mod Sleeps
pub mod Units
mod Examples
mod Recorder
mod Probe
