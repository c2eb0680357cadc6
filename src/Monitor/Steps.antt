-- ===== src/Monitor/Steps.antt =====
-- pa2_2/proc_con/monitor.c: the calls of semaphores and the statements that the two operations share.
use unix_sys_prog.Common.{
  ℕ, zero, suc, ◌+◌, Bool, true, false, Option, none, some, List, set, get_or,
}
use unix_sys_prog.Common.Int.{ℤ, pos, negsuc}
use unix_sys_prog.Monitor.{Cond, Shared}

-- `sem_wait` goes on only if the value is above 0.
unfoldable pub wait_monitor : Shared → Option Shared
wait_monitor s = elim s.monitor_mutex [
  | zero ↦ none
  | suc n ↦ some (record s { monitor_mutex = n })
]

unfoldable pub wait_producer : Shared → Option Shared
wait_producer s = elim s.producer_mutex [
  | zero ↦ none
  | suc n ↦ some (record s { producer_mutex = n })
]

unfoldable pub wait_consumer : Shared → Option Shared
wait_consumer s = elim s.consumer_mutex [
  | zero ↦ none
  | suc n ↦ some (record s { consumer_mutex = n })
]

unfoldable pub wait_cond : Cond → Option Cond
wait_cond c = elim c.mutex [ zero ↦ none | suc n ↦ some (record c { mutex = n }) ]

-- `sem_post`
abbrev pub post_monitor : Shared → Shared
post_monitor s = record s { monitor_mutex = s.monitor_mutex + 1 }

abbrev pub post_producer : Shared → Shared
post_producer s = record s { producer_mutex = s.producer_mutex + 1 }

abbrev pub post_consumer : Shared → Shared
post_consumer s = record s { consumer_mutex = s.consumer_mutex + 1 }

abbrev pub post_cond : Cond → Cond
post_cond c = record c { mutex = c.mutex + 1 }

abbrev pub set_blocked : Bool → Cond → Cond
set_blocked b c = record c { blocked = b }

abbrev pub pred : ℤ → ℤ
pred (pos zero) = negsuc 0
pred (pos (suc n)) = pos n
pred (negsuc n) = negsuc (n + 1)

-- `0 < num`
abbrev pub is_positive : ℤ → Bool
is_positive (pos (suc n)) = true
is_positive z = false

-- `buffer[buffer_index] = ch`, and the read of `buffer[buffer_index]`. In front of the buffer the write
-- is not defined, and the model leaves the buffer as it is; the read has what stands there, `junk`.
unfoldable pub put : List ℕ → ℤ → ℕ → List ℕ
put buffer (pos n) ch = set buffer n ch
put buffer (negsuc n) ch = buffer

unfoldable pub get : ℕ → List ℕ → ℤ → ℕ
get junk buffer (pos n) = get_or buffer n junk
get junk buffer (negsuc n) = junk
