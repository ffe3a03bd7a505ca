-- ===== src/Tasks.antt =====
-- Tasks (internal/tasks/postgres_store.go): the events that workers send, and what the user orders.
pub mod Envelope
pub mod Metadata
pub mod Assets
pub mod Download
pub mod Cancellation
pub mod Inspect
pub mod Transcode
pub mod TranscodeStop
pub mod SubtitleResult
pub mod Subtitle
pub mod Control
pub mod Retry
pub mod Events
pub mod Terminal
