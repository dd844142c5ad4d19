-- ===== src/Controllers/Endpoints.antt =====
-- internal/controller/service/service_controller.go.
mod Reconcile
pub mod Addresses
unfoldable pub use Reconcile.*
