-- ===== src/Virtual.antt =====
-- kernel/memory and kernel/arch/i586/sw/paging.c: the physical pages and the page tables.
pub mod Physical
pub mod Region
pub mod Paging
pub mod Range
