-- ===== src/Store.antt =====
-- The human-tier secret directory: src/store.rs.
pub mod FileIdentity
pub mod HumanStore
pub mod Sole
