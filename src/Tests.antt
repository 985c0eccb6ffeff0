-- ===== src/Tests.antt =====
-- The theorems at concrete inputs, a module for each part.
pub mod Inputs
pub mod Queues
pub mod Maps
pub mod Probes
pub mod Blocks
pub mod Threads
pub mod Expiry
pub mod Logs
pub mod Owners
pub mod Chains
pub mod Caches
pub mod Sharing
pub mod Batches
pub mod Demos
pub mod Runs
