-- ===== src/Pmap.antt =====
-- The physical page allocator and the two-level page tables: pmap.c and pmap.h, with the address
-- macros of inc/mmu.h and inc/types.h that they use.
pub mod Addr
pub mod State
pub mod Alloc
pub mod Table
pub mod UserMem
pub mod BootAlloc
pub mod Boot
pub mod Detect
pub mod MemInit
pub mod Check
