-- ===== src/Paging.antt =====
-- Virtual memory: the entries of page tables, the indices of an address, and the page table manager.
pub mod Entry
pub mod Indexer
pub mod Source
pub mod Manager
pub mod FramesSource
