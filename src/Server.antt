-- ===== src/Server.antt =====
-- The daemon's request handling: src/server.rs and src/server/.
pub mod State
pub mod Control
pub mod Approval
pub mod Worker
pub mod Step
pub mod Calls
pub mod Invariant
pub mod Conclude
pub mod Tokens
pub mod Sessions
pub mod Epoch
pub mod Access
pub mod Dispatch
pub mod Answers
pub mod Released
pub mod Connections
pub mod Frames
pub mod Lanes
pub mod Admission
pub mod Finished
