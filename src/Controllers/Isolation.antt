-- ===== src/Controllers/Isolation.antt =====
-- Whole rounds of internal/controller and the kinds of object that they write.
pub mod Deployments
pub mod ReplicaSets
pub mod Services
