-- ===== src/Store.antt =====
-- The buckets and the packed array as one store, for server, client and replay.
mod Linked
mod Kept
pub use Linked.*
pub use Kept.*
