-- ===== src/Memory.antt =====
-- The memory managers of agentos-kernel/src/memory.
pub mod Frames
pub mod Kv
pub mod Paging
