-- ===== src/SmartPtr.antt =====
-- smart_pointers/include/smart_pointers: the owning pointers.
pub mod Unique
pub mod Ownership
pub mod Handles
pub mod Counts
pub mod Release
pub mod Acquire
pub mod Watch
pub mod Fresh
pub mod Lifetimes
pub mod Histories
pub mod Shared
pub mod Nested
pub mod Weak
