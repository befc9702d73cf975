-- ===== src/Store.antt =====
-- internal/store
pub mod Sql
pub mod Clock
pub mod Rows
pub mod Chunks
pub mod Pending
pub mod Track
pub mod Messages
pub mod Groups
pub mod Peers
pub mod Config
pub mod Downloads
pub mod Sync
pub mod Replication
pub mod Migration
pub mod Op
pub mod Invariant
pub mod History
