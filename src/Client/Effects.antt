-- ===== src/Client/Effects.antt =====
-- What the methods of internal/client/client.go have done when they report success, over the server
-- that answers them and a network that may lose a request or an answer.
mod Reach
mod Reads
mod Writes
unfoldable pub use Reach.*
unfoldable pub use Reads.*
unfoldable pub use Writes.*
