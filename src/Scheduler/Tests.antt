-- ===== src/Scheduler/Tests.antt =====
-- pa4_1: runs of the model on small inputs, and the theorems at such inputs.
use unix_sys_prog.Scheduler.Signals
use unix_sys_prog.Scheduler.Signals.{Signals}
use unix_sys_prog.Common.{
  ℕ, ◌+◌, ◌*◌, ◌<◌, ◌≡◌, refl, Bool, true, Option, none, some, List, [], ◌∷◌, arith, ◌==◌, ◌||◌,
  if◌then◌else◌,
}
use unix_sys_prog.Common.Int.{pos, negsuc}
use unix_sys_prog.Common.Text.{codes}
use unix_sys_prog.Scheduler.Memory.{
  Ptr, null, ListElem, Timespec, sigusr1, sigusr2, sigterm, Signal, State, load_info, write,
  load_elem, free_elem, free_info, load, pthread_kill,
}
use unix_sys_prog.Scheduler.Clock.{time_difference, nanoseconds, time_difference_bounds}
use unix_sys_prog.Scheduler.ThreadList.{
  sched_queue, null_list, list_size, list_insert_tail, list_remove, print_list, pthread_mutex_lock,
  pthread_mutex_unlock, set_prev, set_next, size_loop,
}
use unix_sys_prog.Scheduler.ThreadList.Segment.{elem}
use unix_sys_prog.Scheduler.ThreadList.Sequence.{
  Op, insert_head, insert_tail, remove, run_ops, apply_all, apply, contains, erase,
}
use unix_sys_prog.Scheduler.ThreadList.Refinement.{Represents, run_ops-refines}
use unix_sys_prog.Vmm.Run.Atoi.{atoi}
use unix_sys_prog.Scheduler.Worker.{
  start_worker, enter_scheduler_queue, sem_wait_queue, leave_scheduler_queue,
}
use unix_sys_prog.Scheduler.Timer.{
  add_times, alarms, cancel_worker, less_one, next_worker, resume_worker, suspend_worker,
  timer_handler, update_run_time, update_wait_time, wait_for_queue, scheduler_run, clock_gettime,
}
use unix_sys_prog.Scheduler.Main.{
  System, init_sched_queue, create_workers, create_worker, run_workers, globals, smp5_main, ended,
  Outcome,
}
use unix_sys_prog.Scheduler.Main.Hiring.{IsFresh}
use unix_sys_prog.Scheduler.Main.Completion.{Completed, smp5_main-Completed}

abbrev early : Timespec
early = record { tv_sec = 1; tv_nsec = 999999500 }

abbrev late : Timespec
late = record { tv_sec = 3; tv_nsec = 250 }

-- The two halves round towards 0, each by itself.
difference : time_difference late early ≡ pos 1000001
unfolding time_difference
difference = refl

time_difference_bounds_example :
    (d : ℕ) × (time_difference late early ≡ pos d)
    × (nanoseconds early + d * 1000 < nanoseconds late + 1000)
    × (nanoseconds late < nanoseconds early + d * 1000 + 1000)
time_difference_bounds_example =
    time_difference_bounds late early (omega arith) (omega arith) (omega arith)

-- Three elements that are in no list.
abbrev heap : Ptr → Option ListElem
heap p = if p == 7 || p == 8 || p == 9 then some (elem null null (p + 10)) else none

abbrev owned : Ptr → Bool
owned p = p == 7 || p == 8 || p == 9

abbrev unlisted : State
unlisted = record (globals 0) { elems = heap }

abbrev calls : List Op
calls = insert_tail 7 ∷ insert_head 8 ∷ insert_tail 9 ∷ remove 7 ∷ insert_tail 7 ∷ remove 8 ∷ []

apply_all-calls : apply_all calls [] ≡ some (9 ∷ 7 ∷ [])
unfolding apply_all apply contains erase
apply_all-calls = refl

unlisted-Represents : Represents (λ p. p + 10) owned unlisted []
unfolding globals
unlisted-Represents = record {
  holds = record { head = refl; tail = refl; lock = refl; linked = tt; distinct = tt };
  real = λ p own. ground arith;
  there = λ p own. (elem null null (p + 10), ground arith, refl);
}

run_ops-refines_example :
    (s : State) × (run_ops calls unlisted ≡ some (tt, s))
    × Represents (λ p. p + 10) owned s (9 ∷ 7 ∷ [])
    × (list_size 5 sched_queue s ≡ some (pos 2, s))
    × (print_list 5 s ≡ some (19 ∷ 17 ∷ [], s))
run_ops-refines_example =
    run_ops-refines (λ p. p + 10) owned calls unlisted [] (9 ∷ 7 ∷ []) 5 unlisted-Represents
      (refl, (refl, (refl, (refl, (refl, (refl, tt)))))) apply_all-calls (omega arith)

-- `NULL` for the list or the element is refused.
insert-null : list_insert_tail sched_queue null unlisted ≡ some (negsuc 0, unlisted)
unfolding list_insert_tail
insert-null = refl

size-null : list_size 5 null_list unlisted ≡ some (negsuc 0, unlisted)
unfolding list_size
size-null = refl

abbrev system : System
system = record {
  clock = λ n. record { tv_sec = n; tv_nsec = 0 };
  info = λ i. 100 + i;
  item = λ i. 200 + i;
  junk = λ i. record {
    thrid = 0;
    quanta = pos 0;
    le = 0;
    suspend_time = early;
    resume_time = early;
    wait_time = pos 0;
    run_time = pos 0;
  };
  thrid = λ i. i + 1;
  sched_yield = λ s. some (tt, s);
  timer_created = true;
  timer_set = true;
}

system-IsFresh : (n : ℕ) → IsFresh system n
system-IsFresh n = record {
  info_real = λ i lt. ground arith;
  item_real = λ i lt. ground arith;
  info_apart = λ i j lt lt'. ground arith;
  item_apart = λ i j lt lt'. ground arith;
}

abbrev sent : Outcome → List (ℕ × Signal)
sent (ended n t) = t.sent
sent o = []

-- Two workers, for two quanta and for one: the signals, the last one first.
run_two :
    sent (
      smp5_main system 6 9 (codes "scheduler" ∷ codes "2" ∷ codes "2" ∷ codes "2" ∷ codes "1" ∷ []))
    ≡ (1, sigterm) ∷ (1, sigusr2) ∷ (2, sigterm) ∷ (2, sigusr2) ∷ (1, sigusr1) ∷ (1, sigusr2) ∷ []
unfolding smp5_main atoi init_sched_queue create_workers create_worker clock_gettime load_info write
    start_worker enter_scheduler_queue sem_wait_queue list_insert_tail pthread_mutex_lock set_prev
    load_elem set_next pthread_mutex_unlock scheduler_run globals run_workers free_elem free_info
    load pthread_kill list_remove list_size size_loop add_times alarms cancel_worker less_one
    next_worker resume_worker suspend_worker timer_handler update_run_time update_wait_time
    wait_for_queue leave_scheduler_queue
run_two = refl

smp5_main-Completed_example :
    (t : State) × (smp5_main system 6 9
        (codes "scheduler" ∷ codes "2" ∷ codes "2" ∷ codes "2" ∷ codes "1" ∷ [])
      ≡ ended 4 t)
    × Completed system (pos 2 ∷ pos 1 ∷ []) t
unfolding atoi
smp5_main-Completed_example =
    smp5_main-Completed system 5 9 2 (codes "scheduler") (codes "2") (codes "2") (codes "2")
      (codes "1" ∷ []) refl refl (system-IsFresh 2) refl refl (omega arith, (omega arith, tt))
      (omega arith) (omega arith) (omega arith)

-- A process that starts with all signals blocked.
abbrev all_blocked : Signals
all_blocked = record { actions = λ g. none; blocked = λ g. true }
