-- ===== src/Decrypt.antt =====
-- The decryptor: src/decrypt.rs. What the child process does is a parameter.
pub mod Failure
pub mod Child
pub mod Decryptor
