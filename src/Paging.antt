-- ===== src/Paging.antt =====
-- The abstract side of both memory managers (pa3_2/VirtualMemoryManager and pa3_3/VMM2): which page
-- is resident in which frame, as a partial function, and what the frames then hold.
mod Residency
pub mod Count
pub use Residency.*
