-- ===== src/Messenger.antt =====
-- internal/messenger
pub mod Cleanup
pub mod Peers
pub mod Session
pub mod Fetch
pub mod Files
pub mod Inbox
pub mod Outgoing
pub mod Delivery
pub mod EndToEnd
pub mod Chunks
pub mod StateSync
