-- ===== src/Arca.antt =====
-- arca/: the archive daemon, its wire protocol and its client.
pub mod Decimal
pub mod Resp
pub mod Archive
pub mod Client
pub mod Session
