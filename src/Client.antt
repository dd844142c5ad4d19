-- ===== src/Client.antt =====
-- internal/client/client.go: the methods of Client, as actions on the cluster.
mod Methods
pub mod Effects
pub mod Progress
pub mod Keeping
pub mod Apart
pub mod Named
pub mod Paths
pub mod Applying
unfoldable pub use Methods.*
