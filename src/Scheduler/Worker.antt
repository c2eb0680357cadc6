-- ===== src/Scheduler/Worker.antt =====
-- pa4_1/worker.c: how a worker enters the queue of the scheduler and leaves it. What it prints, the
-- masks of its signals and its calculation are left out.
use unix_sys_prog.Common.{not, zero, suc, ◌+◌, none, some}
use unix_sys_prog.Common.Int.{ℤ, pos}
use unix_sys_prog.Scheduler.Memory.{
  Ptr, null, Run, pure, when, is_zero, ◌>>=◌, ◌>>◌, load_info, store_elem, store_info, free_elem,
  free_info,
}
use unix_sys_prog.Scheduler.ThreadList.{sched_queue, list_insert_tail, list_remove}

-- `sem_wait(&queue_sem)` goes on only if the value is above 0.
unfoldable pub sem_wait_queue : Run (Unit {0})
sem_wait_queue s = elim s.queue_sem [ zero ↦ none | suc n ↦ some (tt, record s { queue_sem = n }) ]

-- The handler of SIGTERM: another worker may enter the queue. The thread ends.
unfoldable pub cancel_thread : Run (Unit {0})
cancel_thread s = some (tt, record s { queue_sem = s.queue_sem + 1 })

-- `item` is what `malloc` returns.
unfoldable pub enter_scheduler_queue : (item : Ptr) → (info : Ptr) → Run ℤ
enter_scheduler_queue item info = do
  sem_wait_queue
  t ← load_info info
  store_info info (some (record t { le = item }))
  store_elem item (some (record { prev = null; next = null; info = info }))
  list_insert_tail sched_queue item
  pure (pos 0)

unfoldable pub leave_scheduler_queue : Ptr → Run (Unit {0})
leave_scheduler_queue info = do
  t ← load_info info
  list_remove sched_queue t.le
  free_elem t.le
  free_info info

-- A worker until it waits, suspended, for the scheduler's SIGUSR2.
unfoldable pub start_worker : (item : Ptr) → (info : Ptr) → Run (Unit {0})
start_worker item info = do
  r ← enter_scheduler_queue item info
  when (not (is_zero r)) (free_info info)
