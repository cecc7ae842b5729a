-- ===== src/Names.antt =====
-- Validated names: src/secret.rs and src/capability.rs.
pub mod SecretName
pub mod Capability
pub mod HumanFile
pub mod Assignment
pub mod Laws
