-- ===== src/Services.antt =====
-- lovensepy/services/http_api: several backends as one, the cache of their toy lists, and the status
-- document as a remote sees it.
pub mod Composite
pub mod Routing
pub mod Snapshot
pub mod Remote
pub mod ToyCache
pub mod Sharing
mod Tests
