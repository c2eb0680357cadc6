-- ===== src/Scheduler.antt =====
-- pa4_1: a scheduler (scheduler.c) that runs worker threads (worker.c) one at a time, in turns of one
-- quantum each, from a queue (list.c). `main.c` only calls `smp5_main`.
pub mod Memory
pub mod Clock
pub mod ThreadList
pub mod Worker
pub mod Signals
pub mod Timer
pub mod Main
mod Tests
