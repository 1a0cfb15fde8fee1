-- ===== src/Memory.antt =====
-- kernel/memory: the physical frame allocator and the kernel heap.
pub mod PageManager
pub mod Heap
pub mod Paging
pub mod MemoryMap
