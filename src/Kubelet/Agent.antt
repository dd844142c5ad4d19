-- ===== src/Kubelet/Agent.antt =====
-- internal/kubelet/agent.go: Agent, over any Runtime and any Prober, and one round of its loop.
mod Round
pub mod Isolation
pub mod Groups
pub mod Restarts
mod Lookups
mod Stops
pub mod Returns
pub mod CleanUp
pub mod Reports
pub mod Starting
unfoldable pub use Round.*
