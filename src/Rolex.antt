-- ===== src/Rolex.antt =====
-- rolex/: the binary search over an array, and the allocator of the leaves.
pub mod Search
pub mod LeafAllocator
