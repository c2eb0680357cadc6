-- ===== src/Lib.antt =====
-- Verification of the programs of unixSysProg: the virtual memory manager of pa3_3/VMM2, its first
-- version in pa3_2, the shell of a2/osh, the producers and consumers of pa3_1/pthread_1 and of
-- pa2_2/proc_con, and the scheduler of pa4_1.
--
-- The virtual memory manager (Vmm) reads 16-bit logical addresses from a file and prints for each the
-- physical address and the byte there. Its parts, each with its theorems in modules below it:
--   Vmm/Address   pa3_3/VMM2/globals.h: masks and shifts (getOffsetFromLogicalAddress, ...)
--   Vmm/Page      pa3_3/VMM2/pageblock.cpp: class Page, an array of 256 bytes
--   Vmm/Store     pa3_3/VMM2/backingstore.cpp: class BackingStore over the system's lseek and read
--   Vmm/Tlb       pa3_3/VMM2/tlb.cpp: class Tlb, 16 cached translations replaced round robin
--   Vmm/Table     pa3_3/VMM2/pagetable.cpp: class PageTable with the FIFO and the LRU policy
--   Vmm/Memory    pa3_3/VMM2/physicalmemory.cpp: classes PhysicalMemory and WorkingSet
--   Vmm/Manager   pa3_3/VMM2/vmm.cpp: class VirtualMemoryManager; translate asks the TLB, then the page
--                 table, and on a page fault reads the page from the store into a free frame or into
--                 that of a victim
--   Vmm/Run       pa3_3/VMM2/main.cpp: run, from the arguments to the output
-- Paging says, with no reference to the code, what it means that k frames hold the blocks of k pages,
-- and how loading and replacing a page keeps it; Vmm/Manager/Sound ties page table, frames and free
-- frames to it.
--
-- The first version of the manager (VmmBasic, pa3_2/VirtualMemoryManager) takes the frames in turn; what
-- it has in common with pa3_3/VMM2 stands in Vmm:
--   VmmBasic/Table    pagetable.cpp: class PageTable
--   VmmBasic/Manager  vmm.cpp: class VirtualMemoryManager, and addPage of physicalmemory.cpp
--   VmmBasic/Run      main.cpp: run and main
--
-- The shell (Osh) reads a line, cuts it into tokens, parses the tokens into a chain of commands and runs
-- the chain:
--   Osh/Symbols   a2/osh/globals.h: the symbols and modes
--   Osh/Tokens    a2/osh/utils.h: TokenizeString and trim
--   Osh/Input     a2/osh/InputHandler.cpp: class InputHandler
--   Osh/Command   a2/osh/command.h: class Command
--   Osh/Parser    a2/osh/parser.cpp: class Parser; Osh/Parser/Syntax is an independent description of the
--                 command lines and of the chains that they mean
--   Osh/Executor  a2/osh/executor.cpp: executeCommandList in the parent process
--   Osh/Child     a2/osh/executor.cpp: childExecFunction and fixupStdinOut in the child process
--   Osh/Shell     a2/osh/osh.cpp: the loop of osh::run
--
-- The producers and consumers (Pthread, pa3_1/pthread_1/main.cpp) are threads on one buffer and three
-- semaphores: producer_function, consumer_function and main are step functions, one step for each call
-- of a semaphore or statement on shared variables, and a relation lets the threads take turns in any
-- order. Pthread/Balance says what a step does to the semaphores, Pthread/Schedule runs an interleaving.
--
-- The producers and consumers of pa2_2 (Monitor) share a buffer of one character behind a monitor:
--   Monitor         pa2_2/proc_con/monitor.c: the shared variables and monitor_init
--   Monitor/Steps   the calls of semaphores and the statements that both operations use
--   Monitor/Insert  monitor_insert with monitor_getNumConsumersBlocked, as a step function
--   Monitor/Remove  monitor_remove with monitor_getNumProducersBlocked, as a step function
--   Monitor/System  pa2_2/proc_con/main.c: producer_function, consumer_function and main, and the relation
--                   that lets the threads take turns in any order
-- Monitor/Phase names the phases that the buffer goes through and says what a step does to them,
-- Monitor/Exclusion counts the threads in the monitor, Monitor/Schedule runs an interleaving.
--
-- The scheduler (Scheduler, pa4_1) lets one worker thread run at a time, for one quantum between two
-- alarms, with semaphores and signals:
--   Scheduler/Memory      the heaps of list elements and of thread records, the queue with its semaphore,
--                         the signals that were sent, and the monad over them
--   Scheduler/ThreadList  pa4_1/list.c: the doubly linked list of workers. Segment says what a part of the
--                         list is in the heap; Refinement relates the operations to those on a sequence
--   Scheduler/Clock       pa4_1/scheduler.c: time_difference
--   Scheduler/Worker      pa4_1/worker.c: the entry into the queue, cancel_thread and the exit
--   Scheduler/Signals     pa4_1/scheduler.c and worker.c: which thread takes which signal
--   Scheduler/Timer       pa4_1/scheduler.c: timer_handler with suspend_worker, resume_worker,
--                         cancel_worker, next_worker, and the wait for the workers
--   Scheduler/Main        pa4_1/scheduler.c: smp5_main, create_workers and init_sched_queue
--
-- State is passed explicitly: a method takes the object and returns the new one with its results. A
-- failure is none, a status number, or a constructor of a result type. Variables that C++ leaves
-- uninitialised are parameters (Locals, Surroundings). Bytes, addresses and frame numbers are native
-- numbers, with the remainders that their machine types take; the counters are unbounded numbers.
--
-- What is not under the repository is a parameter: the calls of the store's file (Device, with IsHealthy
-- for one whose seeks and reads succeed and return the page asked for), pipe, fork and waitpid (System,
-- whose answers may depend on all calls before), open, dup2 and execvp (ChildSystem), and what the
-- scheduler asks of its system: the clock, malloc, the thread ids and whether the timer can be set.
--
-- Bounds: the loops over arrays are structural. The outer loops of the shell have the bounds of the source
-- (50 commands to a line, 20 to a chain, 23 lines). The two loops of the parser that run until the tokens
-- end, and that of TokenizeString, run on fuel: one round for each token and four more, or for each
-- character and one more, are enough where the theorems say so, and a theorem names lines for which no
-- fuel is. The numbers of threads and writes and the length of the buffer of pa3_1 are parameters, and so
-- are the numbers of threads of pa2_2, the characters that its producers insert and what the memory of its
-- new buffer holds. The walks along the queue of the scheduler run on fuel: one more than the number of
-- its elements is enough. The alarms are rounds: one more than all quanta together is enough, where the
-- theorem says so. All workers enter the queue, in the order in which they are created, before the first
-- alarm.
--
-- Not modelled: traces, dumps and the loggers; the two rates that the manager prints and the averages of
-- the scheduler, which are floats; freeCommandChain, which is not called; failed allocations and thread
-- creations in pa3_1 and pa2_2 and what main cleans up there; in pa4_1 queues with fewer places than
-- workers, print_help, clean_up, and the test runner with its tests; the exercises t1, t2 and t3; and
-- zlog, a library of others.
pub mod Common
pub mod Monitor
pub mod Osh
pub mod Paging
pub mod Pthread
pub mod Scheduler
pub mod Vmm
pub mod VmmBasic
