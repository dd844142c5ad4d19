-- ===== src/Proxy.antt =====
-- internal/proxy: the proxy of one node.
pub mod Ports
pub mod Sync
pub mod Desired
pub mod Listeners
pub mod Rounds
pub mod Sockets
pub mod Connection
pub mod Routing
pub mod Backends
