-- ===== src/Proto.antt =====
-- internal/proto: the CP1 envelope, the session token and the UDP cookie.
pub mod Hashes
pub mod Request
pub mod Reply
pub mod Token
