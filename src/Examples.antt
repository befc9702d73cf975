-- ===== src/Examples.antt =====
-- Test data, tests, and each theorem applied to concrete inputs.
pub mod Data
pub mod Outgoing
pub mod Replicas
pub mod Downloads
pub mod Envelopes
pub mod StateSync
pub mod Chunks
pub mod Inbox
pub mod Files
pub mod EndToEnd
pub mod Transfers
pub mod Deliveries
