-- ===== src/Config.antt =====
-- Source roots: src/config.rs. The TOML parser, the environment and the file system are parameters.
-- A path is its text.
pub mod Paths
pub mod Sources
pub mod Valid
pub mod Daemon
pub mod Start
