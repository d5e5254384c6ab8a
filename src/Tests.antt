-- ===== src/Tests.antt =====
-- The theorems at concrete inputs, and runs of the model.
pub mod Data
pub mod Streams
pub mod Machines
pub mod Memory
pub mod Sessions
pub mod Lines
pub mod Programs
pub mod Logs
