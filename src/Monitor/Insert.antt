-- ===== src/Monitor/Insert.antt =====
-- pa2_2/proc_con/monitor.c: monitor_insert, one step for each call of a semaphore or statement.
use unix_sys_prog.Common.{ℕ, suc, Bool, true, false, Option, none, some, ◌==◌, if◌then◌else◌}
use unix_sys_prog.Common.Int.{ℤ, pos, negsuc, succ}
use unix_sys_prog.Monitor.{Cond, Shared, buffer_length}
use unix_sys_prog.Monitor.Steps.{
  wait_monitor, wait_producer, wait_consumer, wait_cond, post_monitor, post_producer, post_consumer,
  post_cond, set_blocked, pred, is_positive, put,
}

-- The statement that the thread is at. `i_counted` holds the result of
-- monitor_getNumConsumersBlocked.
pub data InsertAt : Type 0 where
  i_enter i_guard i_test i_unguard_blocked i_leave_blocked i_blocked i_unguard : InsertAt
  i_write i_increment i_lock_empty i_clear_empty i_unlock_empty i_count_lock i_count : InsertAt
  i_counted : ℤ → InsertAt
  i_signal_lock i_signal i_decrement i_signal_unlock i_is_full i_full_lock i_set_full : InsertAt
  i_full_unlock i_leave i_return : InsertAt

-- What follows a call of `sem_wait`.
abbrev pub at_once : InsertAt → Option Shared → Option (Shared × InsertAt)
at_once at none = none
at_once at (some s) = some (s, at)

-- `sem_wait(&cond_full.mutex)`
abbrev released : Shared → Option Cond → Option (Shared × InsertAt)
released s none = none
released s (some c) = some (record s { cond_full = c }, i_enter)

-- `buffer_index == BufferLength-1`
abbrev pub is_last : ℤ → Bool
is_last (pos n) = suc n == buffer_length
is_last (negsuc n) = false

unfoldable pub insert_step : Shared → ℕ → InsertAt → Option (Shared × InsertAt)
insert_step s ch i_enter = at_once i_guard (wait_monitor s)
insert_step s ch i_guard = at_once i_test (wait_producer s)
insert_step s ch i_test =
    if s.cond_full.blocked
    then some (
      record s {
        cond_full = record s.cond_full {
          blocked_thread_count = succ s.cond_full.blocked_thread_count;
        };
      },
      i_unguard_blocked,
    )
    else some (s, i_unguard)
insert_step s ch i_unguard_blocked = some (post_producer s, i_leave_blocked)
insert_step s ch i_leave_blocked = some (post_monitor s, i_blocked)
insert_step s ch i_blocked = released s (wait_cond s.cond_full)
insert_step s ch i_unguard = some (post_producer s, i_write)
insert_step s ch i_write = some (record s { buffer = put s.buffer s.buffer_index ch }, i_increment)
insert_step s ch i_increment = some (record s { buffer_index = succ s.buffer_index }, i_lock_empty)
insert_step s ch i_lock_empty = at_once i_clear_empty (wait_consumer s)
insert_step s ch i_clear_empty =
    some (record s { cond_empty = set_blocked false s.cond_empty }, i_unlock_empty)
insert_step s ch i_unlock_empty = some (post_consumer s, i_count_lock)
insert_step s ch i_count_lock = at_once i_count (wait_consumer s)
insert_step s ch i_count = some (s, i_counted s.cond_empty.blocked_thread_count)
insert_step s ch (i_counted num) =
    some (post_consumer s, if is_positive num then i_signal_lock else i_is_full)
insert_step s ch i_signal_lock = at_once i_signal (wait_consumer s)
insert_step s ch i_signal = some (record s { cond_empty = post_cond s.cond_empty }, i_decrement)
insert_step s ch i_decrement = some (
  record s {
    cond_empty = record s.cond_empty {
      blocked_thread_count = pred s.cond_empty.blocked_thread_count;
    };
  },
  i_signal_unlock,
)
insert_step s ch i_signal_unlock = some (post_consumer s, i_is_full)
insert_step s ch i_is_full = some (s, if is_last s.buffer_index then i_full_lock else i_leave)
insert_step s ch i_full_lock = at_once i_set_full (wait_producer s)
insert_step s ch i_set_full =
    some (record s { cond_full = set_blocked true s.cond_full }, i_full_unlock)
insert_step s ch i_full_unlock = some (post_producer s, i_leave)
insert_step s ch i_leave = some (post_monitor s, i_return)
insert_step s ch i_return = none
