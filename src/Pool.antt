-- ===== src/Pool.antt =====
-- memory_pool/include/memory_pool: the two allocators.
pub mod FixedBlock
pub mod FreeList
pub mod History
pub mod ObjectPool
pub mod Objects
