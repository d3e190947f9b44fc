-- ===== src/Workflows.antt =====
-- internal/workflows: rules, buckets, messages and the flush worker.
pub mod Message
pub mod Batching
pub mod Channels
pub mod Flush
pub mod Rules
pub mod Ingest
pub mod Legacy
pub mod Store
pub mod Config
pub mod Worker
pub mod Posted
