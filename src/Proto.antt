-- ===== src/Proto.antt =====
-- The wire protocol: src/proto.rs and src/proto/response.rs.
pub mod ErrCode
pub mod Wire
pub mod Response
pub mod Request
