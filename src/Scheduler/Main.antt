-- ===== src/Scheduler/Main.antt =====
-- pa4_1/scheduler.c: smp5_main, from the arguments to the end of the scheduler's thread. The
-- interleaving is the one in which each worker enters the queue when `main` has set its times, and
-- all have entered before the first alarm; it needs a queue with room for all. The masks and handlers
-- of the signals are taken as set up, and what is printed is left out.
pub mod Entering
pub mod Hiring
pub mod Completion
use unix_sys_prog.Common.{
  ℕ, zero, suc, ◌+◌, Bool, true, false, Option, none, some, List, [], ◌∷◌, ◌==◌, ltb, if◌then◌else◌,
  length, get_or, drop, map,
}
use unix_sys_prog.Common.Int.{ℤ, pos, negsuc}
use unix_sys_prog.Common.Text.{Text}
use unix_sys_prog.Vmm.Run.Atoi.{atoi}
use unix_sys_prog.Scheduler.Memory.{
  Ptr, null, Timespec, ThreadInfo, ThreadInfoList, State, Run, pure, ◌>>=◌, ◌>>◌, store_info,
  load_info,
}
use unix_sys_prog.Scheduler.Worker.{start_worker}
use unix_sys_prog.Scheduler.Timer.{clock_gettime, scheduler_run}

-- What the system answers: the times of the clock; for the worker `i`, the memory that `malloc` finds
-- for its info and its element, what stands in the info's, and the thread's id; and whether the timer
-- can be created and set.
pub record System : Type 0 where
  pub clock : ℕ → Timespec
  pub info : ℕ → Ptr
  pub item : ℕ → Ptr
  pub junk : ℕ → ThreadInfo
  pub thrid : ℕ → ℕ
  pub sched_yield : Run (Unit {0})
  pub timer_created : Bool
  pub timer_set : Bool

-- The global variables at the start, with `thread_count` set.
unfoldable pub globals : ℕ → State
globals n = record {
  elems = λ p. none;
  infos = λ p. none;
  sched_queue = record { head = null; tail = null; lock = false };
  queue_sem = 0;
  quit = false;
  current_thread = null;
  wait_times = pos 0;
  run_times = pos 0;
  completed = 0;
  thread_count = n;
  sent = [];
  readings = 0;
}

-- `sem_init` refuses a negative value.
unfoldable pub init_sched_queue : ℤ → Run (Unit {0})
init_sched_queue (pos size) s = some (
  tt,
  record s { queue_sem = size; sched_queue = record { head = null; tail = null; lock = false } },
)
init_sched_queue (negsuc n) s =
    some (tt, record s { sched_queue = record { head = null; tail = null; lock = false } })

module _ (w : System) where
  -- A round of the loop of `create_workers`.
  unfoldable pub create_worker : ℕ → ℤ → Run (Unit {0})
  create_worker i quanta = do
    let t = w.junk i
    store_info (w.info i) (some (record t { quanta = quanta; thrid = w.thrid i }))
    now ← clock_gettime w.clock
    t1 ← load_info (w.info i)
    store_info (w.info i) (some (record t1 { resume_time = now }))
    now' ← clock_gettime w.clock
    t2 ← load_info (w.info i)
    store_info (w.info i) (some (record t2 { suspend_time = now' }))

  -- `create_workers` from the worker `i` on, with the workers' entries.
  unfoldable pub create_workers : ℕ → List ℤ → Run (Unit {0})
  create_workers i [] = pure tt
  create_workers i (quanta ∷ rest) = do
    create_worker i quanta
    start_worker (w.item i) (w.info i)
    create_workers (i + 1) rest

-- How the program ends: with its usage, with the failure of a timer, or with the number of alarms and the
-- last state. `stuck` stands for what does not end.
pub data Outcome : Type 0 where
  help : Outcome
  failed : Outcome
  ended : ℕ → State → Outcome
  stuck : Outcome

abbrev outcome : Option (ℕ × State) → Outcome
outcome none = stuck
outcome (some (n, s)) = ended n s

module _ (w : System) (fuel left : ℕ) where
  -- `smp5_main` behind the test of the arguments.
  unfoldable pub run_workers : ℤ → List ℤ → Outcome
  run_workers queue_size quanta =
      if w.timer_created
      then if w.timer_set
        then outcome (
            (do
              init_sched_queue queue_size
              create_workers w 0 quanta
              scheduler_run w.clock w.sched_yield fuel left)
              (globals (length quanta)))
        else failed
      else failed

  -- `3 + thread_count` is not `argc` for a negative number.
  unfoldable pub smp5_main : List Text → Outcome
  unfolding run_workers
  smp5_main argv = if ltb (length argv) 3 then help else elim (atoi (get_or argv 1 [])) [
    | negsuc n ↦ help
    | pos thread_count ↦
        if length argv == 3 + thread_count
        then run_workers (atoi (get_or argv 2 [])) (map atoi (drop 3 argv))
        else help
  ]
