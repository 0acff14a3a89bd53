-- ===== src/Store.antt =====
-- kernel/store: the database layer.
pub mod Kv
