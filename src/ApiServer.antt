-- ===== src/ApiServer.antt =====
-- internal/apiserver/server.go: the handlers of the REST routes, over the store. Decoding a body is
-- `json.Unmarshal` of the bytes; the texts of an error are its constructor.
mod Handlers
pub mod Watching
pub mod Replies
pub mod WellFormed
pub mod Streams
pub mod Routes
pub mod Middleware
pub mod Addressing
unfoldable pub use Handlers.*
