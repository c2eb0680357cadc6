-- ===== src/Monitor/Remove.antt =====
-- pa2_2/proc_con/monitor.c: monitor_remove, one step for each call of a semaphore or statement.
use unix_sys_prog.Common.{ℕ, zero, Bool, true, false, Option, none, some, if◌then◌else◌}
use unix_sys_prog.Common.Int.{ℤ, negsuc, succ}
use unix_sys_prog.Monitor.{Cond, Shared}
use unix_sys_prog.Monitor.Steps.{
  wait_monitor, wait_producer, wait_consumer, wait_cond, post_monitor, post_producer, post_consumer,
  post_cond, set_blocked, pred, is_positive, get,
}

-- The statement that the thread is at. `r_counted` holds the result of
-- monitor_getNumProducersBlocked.
pub data RemoveAt : Type 0 where
  r_enter r_guard r_test r_unguard_blocked r_leave_blocked r_blocked r_unguard r_read : RemoveAt
  r_decrement r_count_lock r_count : RemoveAt
  r_counted : ℤ → RemoveAt
  r_signal_lock r_signal r_signal_unlock r_lock_full r_clear_full r_unlock_full : RemoveAt
  r_is_empty r_empty_lock r_set_empty r_empty_unlock r_leave r_return : RemoveAt

-- What a step leaves: the shared variables, `ch`, and the next statement.
abbrev Next : Type 0
Next = Option (Shared × ℕ × RemoveAt)

abbrev pub at_once : ℕ → RemoveAt → Option Shared → Next
at_once ch at none = none
at_once ch at (some s) = some (s, ch, at)

-- `sem_wait(&cond_empty.mutex)`
abbrev released : Shared → ℕ → Option Cond → Next
released s ch none = none
released s ch (some c) = some (record s { cond_empty = c }, ch, r_enter)

-- `buffer_index == -1`
abbrev pub is_minus_one : ℤ → Bool
is_minus_one (negsuc zero) = true
is_minus_one z = false

-- `junk` is what stands in front of the buffer.
unfoldable pub remove_step : ℕ → Shared → ℕ → RemoveAt → Next
remove_step junk s ch r_enter = at_once ch r_guard (wait_monitor s)
remove_step junk s ch r_guard = at_once ch r_test (wait_consumer s)
remove_step junk s ch r_test =
    if s.cond_empty.blocked
    then some (
      record s {
        cond_empty = record s.cond_empty {
          blocked_thread_count = succ s.cond_empty.blocked_thread_count;
        };
      },
      ch,
      r_unguard_blocked,
    )
    else some (s, ch, r_unguard)
remove_step junk s ch r_unguard_blocked = some (post_consumer s, ch, r_leave_blocked)
remove_step junk s ch r_leave_blocked = some (post_monitor s, ch, r_blocked)
remove_step junk s ch r_blocked = released s ch (wait_cond s.cond_empty)
remove_step junk s ch r_unguard = some (post_consumer s, ch, r_read)
remove_step junk s ch r_read = some (s, get junk s.buffer s.buffer_index, r_decrement)
remove_step junk s ch r_decrement =
    some (record s { buffer_index = pred s.buffer_index }, ch, r_count_lock)
remove_step junk s ch r_count_lock = at_once ch r_count (wait_producer s)
remove_step junk s ch r_count = some (s, ch, r_counted s.cond_full.blocked_thread_count)
remove_step junk s ch (r_counted num) =
    some (post_producer s, ch, if is_positive num then r_signal_lock else r_lock_full)
remove_step junk s ch r_signal_lock = at_once ch r_signal (wait_consumer s)
remove_step junk s ch r_signal =
    some (record s { cond_full = post_cond s.cond_full }, ch, r_signal_unlock)
remove_step junk s ch r_signal_unlock = some (post_consumer s, ch, r_lock_full)
remove_step junk s ch r_lock_full = at_once ch r_clear_full (wait_producer s)
remove_step junk s ch r_clear_full =
    some (record s { cond_full = set_blocked false s.cond_full }, ch, r_unlock_full)
remove_step junk s ch r_unlock_full = some (post_producer s, ch, r_is_empty)
remove_step junk s ch r_is_empty =
    some (s, ch, if is_minus_one s.buffer_index then r_empty_lock else r_leave)
remove_step junk s ch r_empty_lock = at_once ch r_set_empty (wait_consumer s)
remove_step junk s ch r_set_empty =
    some (record s { cond_empty = set_blocked true s.cond_empty }, ch, r_empty_unlock)
remove_step junk s ch r_empty_unlock = some (post_consumer s, ch, r_leave)
remove_step junk s ch r_leave = some (post_monitor s, ch, r_return)
remove_step junk s ch r_return = none
