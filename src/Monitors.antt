-- ===== src/Monitors.antt =====
-- Monitors of a video platform, that discover videos and make tasks of them (internal/monitors).
pub mod Rows
pub mod Store
pub mod Runs
pub mod Ingestions
pub mod Scheduler
pub mod Requests
pub mod Taken
pub mod Once
pub mod Stalled
pub mod Drained
