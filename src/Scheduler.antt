-- ===== src/Scheduler.antt =====
-- internal/scheduler/scheduler.go: Scheduler.
mod Round
pub mod Placement
pub mod Isolation
unfoldable pub use Round.*
