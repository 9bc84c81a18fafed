-- ===== src/Server.antt =====
-- internal/server.
pub mod MasterKey
pub mod Store
