-- ===== src/Cache.antt =====
-- control_plane/kv_cache_manager: the eviction policies, and the manager of the KV blocks.
pub mod Policy
pub mod Manager
pub mod Eviction
pub mod Allocation
pub mod Heap
pub mod Invariant
