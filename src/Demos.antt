-- ===== src/Demos.antt =====
-- The demonstration programs, most with the numbers that they choose as arguments.
pub mod KvstoreLinear
pub mod MemoryPool
pub mod ObjectPool
pub mod SmartPointers
pub mod Texts
pub mod HashMapMain
pub mod LruCacheMain
pub mod ChainingMain
pub mod SpscQueue
