-- ===== src/Cache.antt =====
-- cache/: the disk store, and the manager of KV snapshots on it.
pub mod Store
pub mod Manager
pub mod Prefix
