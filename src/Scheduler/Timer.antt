-- ===== src/Scheduler/Timer.antt =====
-- pa4_1/scheduler.c: the handler of the timer's alarms, which suspends the current worker and resumes
-- the next, and the scheduler's thread, which lives until the handler sets `quit`. The clock is a
-- parameter, its readings in order; so is `sched_yield`, in which other threads may run. What is
-- printed is left out. The fuel bounds the walks through the queue and the waiting for a worker.
pub mod Queue
pub mod Suspend
pub mod Turn
pub mod Alarm
pub mod Switching
pub mod Quanta
pub mod Endless
pub mod Moving
pub mod Rounds
use unix_sys_prog.Common.{
  ℕ, zero, suc, ◌+◌, ◌-◌, Bool, true, false, not, Option, none, some, List, [], ◌∷◌, ◌==◌, leb,
  if◌then◌else◌,
}
use unix_sys_prog.Common.Int.{ℤ, pos, negsuc, ◌+ℤ◌}
use unix_sys_prog.Scheduler.Clock.{time_difference}
use unix_sys_prog.Scheduler.Memory.{
  Ptr, null, Timespec, ThreadInfo, sigusr1, sigusr2, sigterm, State, Run, is_zero, pure, ◌>>=◌,
  ◌>>◌, when, load_elem, load_info, store_info, pthread_kill,
}
use unix_sys_prog.Scheduler.ThreadList.{sched_queue, list_size, list_insert_tail, list_remove}
use unix_sys_prog.Scheduler.Worker.{leave_scheduler_queue}

-- `quanta - 1`
unfoldable pub less_one : ℤ → ℤ
less_one (pos zero) = negsuc 0
less_one (pos (suc n)) = pos n
less_one (negsuc n) = negsuc (n + 1)

unfoldable pub update_run_time : Ptr → Run (Unit {0})
update_run_time info = do
  t ← load_info info
  store_info info (
      some (record t {
        quanta = less_one t.quanta;
        run_time = t.run_time +ℤ time_difference t.suspend_time t.resume_time;
      }))

unfoldable pub update_wait_time : Ptr → Run (Unit {0})
update_wait_time info = do
  t ← load_info info
  store_info info
      (some (record t { wait_time = t.wait_time +ℤ time_difference t.resume_time t.suspend_time }))

-- The global sums, when a worker is done.
unfoldable pub add_times : ThreadInfo → Run (Unit {0})
add_times t s = some (
  tt,
  record s {
    wait_times = s.wait_times +ℤ t.wait_time;
    run_times = s.run_times +ℤ t.run_time;
    completed = s.completed + 1;
  },
)

unfoldable pub cancel_worker : Ptr → Run (Unit {0})
cancel_worker info = do
  t ← load_info info
  pthread_kill t.thrid sigterm
  add_times t
  leave_scheduler_queue info

abbrev pub get : Run State
get s = some (s, s)

abbrev pub set_quit : Run (Unit {0})
set_quit s = some (tt, record s { quit = true })

abbrev pub set_current : Ptr → Run (Unit {0})
set_current p s = some (tt, record s { current_thread = p })

module _ (clock : ℕ → Timespec) where
  unfoldable pub clock_gettime : Run Timespec
  clock_gettime s = some (clock s.readings, record s { readings = s.readings + 1 })

  unfoldable pub resume_worker : Ptr → Run (Unit {0})
  resume_worker info = do
    t ← load_info info
    pthread_kill t.thrid sigusr2
    now ← clock_gettime
    store_info info (some (record t { resume_time = now }))
    update_wait_time info

  unfoldable pub suspend_worker : Ptr → Run (Unit {0})
  suspend_worker info = do
    t ← load_info info
    now ← clock_gettime
    store_info info (some (record t { suspend_time = now }))
    update_run_time info
    t' ← load_info info
    if is_zero t'.quanta then cancel_worker info else do
      pthread_kill t'.thrid sigusr1
      list_remove sched_queue t'.le
      list_insert_tail sched_queue t'.le
      pure tt

module _ (sched_yield : Run (Unit {0})) where
  -- Each round of the loop lets other threads run.
  unfoldable pub wait_for_queue : ℕ → Run (Unit {0})
  wait_for_queue zero = λ _. none
  wait_for_queue (suc fuel) = do
    n ← list_size fuel sched_queue
    if is_zero n then (do sched_yield; wait_for_queue fuel) else pure tt

  unfoldable pub next_worker : ℕ → Run Ptr
  next_worker fuel = do
    s ← get
    if leb s.thread_count s.completed
        then pure null
        else do wait_for_queue fuel; s' ← get; e ← load_elem s'.sched_queue.head; pure e.info

module _ (clock : ℕ → Timespec) (sched_yield : Run (Unit {0})) where
  unfoldable pub timer_handler : ℕ → Run (Unit {0})
  timer_handler fuel = do
    n ← list_size fuel sched_queue
    if is_zero n then set_quit else do
      s ← get
      when (not (s.current_thread == null)) (suspend_worker clock s.current_thread)
      info ← next_worker sched_yield fuel
      set_current info
      if info == null then set_quit else resume_worker clock info

  -- `while (!quit) sched_yield();`: the alarms of the timer that come in meanwhile, one for each unit
  -- of fuel. Their number is returned.
  unfoldable pub alarms : (fuel : ℕ) → (left : ℕ) → ℕ → Run ℕ
  alarms fuel zero n = λ _. none
  alarms fuel (suc left) n = do
    s ← get
    if s.quit then pure n else do timer_handler fuel; alarms fuel left (n + 1)

  unfoldable pub scheduler_run : (fuel : ℕ) → (left : ℕ) → Run ℕ
  scheduler_run fuel left = do wait_for_queue sched_yield fuel; alarms fuel left 0
