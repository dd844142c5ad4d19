-- ===== src/Controllers/Deployments.antt =====
-- internal/controller/deployment/controller.go.
mod Sync
pub mod Rollout
mod Turning
pub mod Rolling
unfoldable pub use Sync.*
