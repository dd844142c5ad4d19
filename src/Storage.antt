-- ===== src/Storage.antt =====
-- internal/storage: the Store that the API server writes to. Each method of MemoryStore is an
-- action on its state; the lock makes a method one step, so a send on a full channel is `blocked`
-- with the lock held and with what was written before it.
pub mod Watchers
pub mod Memory
pub mod Spec
pub mod Refinement
pub mod Recovery
pub mod Listing
