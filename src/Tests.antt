-- ===== src/Tests.antt =====
-- The theorems at concrete inputs.
pub mod Data
pub mod Queues
pub mod Sessions
pub mod Values
pub mod Daemon
pub mod Answers
pub mod Start
pub mod Tools
