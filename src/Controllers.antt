-- ===== src/Controllers.antt =====
-- internal/controller: the reconcile loops of the controller manager, each round a function.
pub mod ReplicaSets
pub mod Deployments
pub mod Endpoints
pub mod Isolation
