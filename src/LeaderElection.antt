-- ===== src/LeaderElection.antt =====
-- internal/leaderelection/election.go: LeaderElector.
mod Elector
mod Run
pub mod Acquired
pub mod Exclusion
pub mod Overlap
pub mod Callbacks
pub mod Ending
unfoldable pub use Elector.*
unfoldable pub use Run.*
pub mod Terms
pub mod Takeover
