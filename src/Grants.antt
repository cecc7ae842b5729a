-- ===== src/Grants.antt =====
-- Session tokens, scopes, the session registry and the grant table: src/grants.rs.
pub mod Token
pub mod Registry
pub mod Table
