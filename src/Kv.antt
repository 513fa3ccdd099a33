-- ===== src/Kv.antt =====
-- internal/kv: the replicated key-value store.
pub mod Entry
pub mod Store
pub mod Config
pub mod Txn
pub mod Service
pub mod Cluster
pub mod Server
pub mod Client
mod Tests
