-- ===== src/Controllers/ReplicaSets.antt =====
-- internal/controller/replicaset/controller.go.
mod Reconcile
pub mod Scaling
pub mod Counting
pub mod Converging
pub mod Listed
pub mod Settling
unfoldable pub use Reconcile.*
