-- ===== src/VmmBasic.antt =====
-- pa3_2/VirtualMemoryManager: the first version of the virtual memory manager. Its pages, backing
-- store, TLB and address arithmetic are those of pa3_3/VMM2 but for the traces, and stand in Vmm; it
-- has neither a replacement policy nor a stack of free frames.
pub mod Table
pub mod Manager
pub mod Run
mod Tests
