-- ===== src/Monitor.antt =====
-- pa2_2/proc_con: producers and consumers on a buffer of one character behind a monitor (monitor.c),
-- and the threads that call it (main.c). Each step of a thread is one call of a semaphore or one
-- statement on the shared variables; the threads' steps interleave in any order. The threads exist from
-- the start: one that is not created yet is one that has not moved. Failed allocations and thread
-- creations, and what is printed, are left out. The numbers of threads, the characters that each
-- producer is to write and the contents of the new buffer are parameters.
pub mod Steps
pub mod Insert
pub mod Remove
pub mod Phase
pub mod System
pub mod Threads
pub mod Exclusion
pub mod Safety
pub mod Stale
pub mod Schedule
mod Tests
use unix_sys_prog.Common.{ℕ, zero, suc, ◌+◌, Bool, true, false, List}
use unix_sys_prog.Common.Int.{ℤ, pos, negsuc}

-- `BufferLength`
abbrev pub buffer_length : ℕ
buffer_length = 1

-- `struct cond` with its `struct cv`.
pub record Cond : Type 0 where
  pub blocked : Bool
  pub blocked_thread_count : ℤ
  pub mutex : ℕ

-- The shared variables and semaphores.
pub record Shared : Type 0 where
  pub buffer : List ℕ
  pub buffer_index : ℤ
  pub cond_empty : Cond
  pub cond_full : Cond
  pub monitor_mutex : ℕ
  pub producer_mutex : ℕ
  pub consumer_mutex : ℕ

-- `monitor_init`, with the contents of the new buffer.
unfoldable pub monitor_init : List ℕ → Shared
monitor_init buffer = record {
  buffer = buffer;
  buffer_index = negsuc 0;
  cond_empty = record { blocked = true; blocked_thread_count = pos 0; mutex = 0 };
  cond_full = record { blocked = false; blocked_thread_count = pos 0; mutex = 0 };
  monitor_mutex = 1;
  producer_mutex = 1;
  consumer_mutex = 1;
}
