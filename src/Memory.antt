-- ===== src/Memory.antt =====
-- src/kernel/memory: physical pages, page tables and the kernel heap.
pub mod Pmm
pub mod Vmm
pub mod Heap
