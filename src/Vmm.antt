-- ===== src/Vmm.antt =====
-- pa3_3/VMM2: a virtual memory manager with a TLB, a page table with two replacement policies,
-- physical memory, a stack of free frames and a backing store.
pub mod Address
pub mod Page
pub mod Store
pub mod Tlb
pub mod Table
pub mod Memory
pub mod Manager
pub mod Run
mod Tests
