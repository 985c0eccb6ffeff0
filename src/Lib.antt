-- ===== src/Lib.antt =====
-- The libraries of cpp-systems-playground: containers, pools, smart pointers, key-value stores, a
-- lock-free queue and a thread pool, each a header or two under its own directory.
--
-- How they interact. LRUCache (lru_cache) keeps a list and a HashMap (hash_map) from keys to
-- iterators into it. InMemorykvstore_chaining (kv_store_chaining) puts its nodes into blocks of
-- FixedBlockMemoryPool (memory_pool). All programs print through common/include/common/logging.hpp.
-- The other libraries stand alone.
--
-- Which file models what. A function has the name of the member it models, in lower case; a class is
-- a record of its data members, and a member function takes the record before the call and returns
-- the record after it. What can throw, or is undefined in C++, returns an `Outcome`
-- (Prelude/Outcomes): `ok`, or `err` with the exception or with `undefined`.
--   Spsc          lock_free_queue/include/lock_free_queue/spsc_queue.hpp. One call at a time: `push`,
--                 `emplace`, `pop`, `empty`, `full`, `size`, `clear`. Spsc/Concurrent has the same
--                 code as steps of a producer and a consumer, one for each access to shared memory.
--   HashMap       hash_map/include/hash_map/hash_map.hpp. The loops over one bucket are in
--                 HashMap/Bucket, those over the vector of buckets in HashMap/Buckets.
--                 `operator[]` is `index`, `max_load_factor(double)` is `set_max_load_factor`.
--                 A rehash gives the vector of buckets new memory, which has a name in `index`.
--                 HashMap/Histories runs calls on a map and on a finite map with a load factor;
--                 HashMap/Contents forgets the number of buckets and how the entries lie in them.
--   Linear        kv_store_linear/include/kv_store_linear/kvstore_linear.hpp. The loop that `insert`,
--                 `get` and `erase` share is `probe`; Linear/Text has the character arrays,
--                 and Linear/Histories runs `insert` and `get` on a store and on a bounded map.
--   Pool          memory_pool/include/memory_pool: FixedBlock for fixed_block_memory_pool.hpp, and
--                 ObjectPool for object_pool.hpp.
--   ThreadPool    thread_pool/include/thread_pool/work_stealing_thread_pool.hpp. The deques are in
--                 ThreadPool, the threads in ThreadPool/Threads, where each critical section of a
--                 deque's mutex is a step, and a worker that holds `global_mutex_` keeps the other
--                 workers and the destructor from locking it; ThreadPool/Shutdown has the histories
--                 in which nothing is submitted once the destructor has started.
--   Redis         in_memory_redis/src/redis.cpp and its header, a function for each critical section.
--                 Times and times to live are ticks of the clock; the time that it returned is an
--                 argument. Redis/Sections has the sections as steps that interleave,
--                 Redis/Sweeper the rounds of the sweeper up to a wait.
--   Lru           lru_cache/include/lru_cache/lru_cache.hpp, over the functions of HashMap.
--                 Lru/Recency is the same cache as a list of entries, the last used first, and
--                 Lru/Histories runs calls on both.
--   Chaining      kv_store_chaining/src/kv_store_chaining.cpp, over those of Pool/FixedBlock.
--                 Chaining/Histories runs calls on a store and on a map of bounded size.
--   SmartPtr      smart_pointers/include/smart_pointers: Unique for unique_ptr.hpp, Shared and Weak
--                 for shared_ptr.hpp, over a heap of control blocks.
--                 SmartPtr/Handles is a program with any number of SharedPtr and WeakPtr variables,
--                 whose objects hold no smart pointers; SmartPtr/Nested is `release` of an object
--                 whose destructor does something to the heap.
--   Examples      examples/thread_pool_lockfree_example.cpp: the batch of tasks, and the filling of the
--                 queue of the worker pool. Examples/WaitFree is `example_wait_free_demo`, two threads
--                 over the steps of Spsc/Concurrent, and Examples/Pipeline is `example_pipeline`, where
--                 a call of `push` or `pop` is a step and a list of turns says who takes the next one.
--   Demos         the demonstration programs: KvstoreLinear for
--                 kv_store_linear/src/kvstore_linear_demo.cpp, MemoryPool for memory_pool/src/main.cpp
--                 and memory_pool_demo.cpp, ObjectPool for object_pool_demo.cpp there, SmartPointers for
--                 smart_pointers/src/main.cpp, SpscQueue for lock_free_queue/src/spsc_queue_demo.cpp, two
--                 threads over the steps of Spsc/Concurrent, and HashMapMain, LruCacheMain and
--                 ChainingMain for the calls that the programs of hash_map, lru_cache and
--                 kv_store_chaining make. A program returns what it prints.
--   Logging       common/include/common/logging.hpp.
--   Prelude       shared types and lemmas; Tests has concrete inputs.
--
-- Parameters. The hash and the equality of keys are an instance of `Key`; equality is assumed to
-- decide equality of keys, and nothing is assumed of the hash. The floating-point numbers of the
-- load factor are an instance of `Floats`, of which nothing is assumed where no hypothesis says so;
-- its `quotient` says which conversions to a `size_type` are defined. The numbers of entries and of
-- slots that a demonstration chooses are arguments, and so is `std::to_string`, of which
-- Demos/KvstoreLinear/Checks says what is relied on (`IsDecimal`).
--
-- Fuel. `drain`, the loop of SPSCQueue::clear, has a round for each slot of the buffer, one more
-- than there can be items. `probe` has a round for each slot, as the loop it models. `steal_loop`,
-- `work_from` and `link_from` (and `linked_from`, its result where nothing wraps) count the rounds
-- that their loops count. `rounds` of Redis/Sweeper needs one round for each node of the heap and
-- one to see that nothing is due. `fill` of Examples counts calls of `push`, of which it needs one
-- for each item that fits, and `execute_all` counts calls of `pop`, one for each task and one that
-- finds nothing. `contents` and `deallocate_nodes` of Demos/MemoryPool have a round for each node
-- that was allocated. No other function of the program has fuel.
--
-- Machine words. Counters that wrap round do so at 2 ^ 64: the round robin of the thread pool, the
-- versions of the key-value server, the counts of SharedPtr, the hash of Linear, the bucket count that
-- `reserve` asks for, and the sizes and offsets of FixedBlockMemoryPool. The clock of the key-value
-- server counts up to 2 ^ 63, beyond which its sum is undefined. Other indices, sizes
-- and addresses are natural numbers, below the size of the memory that holds what they count.
--
-- What objects do. The type of the objects of SharedPtr and WeakPtr is taken to hold no such pointers,
-- but in SmartPtr/Nested. A pointer of the histories of UniquePtr gets only objects that no pointer had
-- before. The texts of a call of Linear/Histories are each followed by a zero byte in memory. Every
-- whole call of `push` or `pop` is one step in Examples/Pipeline.
--
-- Memory. `new` and the containers of the standard library are taken to get the memory that they ask
-- for; only the pools run out of it.
--
-- Not modelled: the tests and the benchmarks, which only call these libraries; the demonstrations of
-- in_memory_redis and thread_pool, whose output depends on how long threads sleep
-- and run; the examples in which several threads pop from one SPSCQueue, which allows one consumer;
-- what the other demonstrations log, and the bucket counts and load factors that they print;
-- std::future and std::bind in WorkStealingThreadPool::submit, where a task is a number; the padding
-- of SPSCQueue, and reorderings of its accesses other than those of interleaving, which its acquire
-- and release orders exclude; in KVStore, the times at which the sweeper wakes.
pub mod Prelude
pub mod Spsc
pub mod HashMap
pub mod Linear
pub mod Pool
pub mod SmartPtr
pub mod ThreadPool
pub mod Logging
pub mod Lru
pub mod Redis
pub mod Chaining
pub mod Examples
pub mod Demos
pub mod Tests
