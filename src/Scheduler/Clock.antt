-- ===== src/Scheduler/Clock.antt =====
-- pa4_1/scheduler.c: time_difference, in microseconds.
use unix_sys_prog.Common.{ℕ, ◌+◌, ◌*◌, ◌<◌, ◌≤◌, ◌≡◌, arith}
use unix_sys_prog.Common.Int.{ℤ, pos, sub_ℕ, pos_part, ◌+ℤ◌, ◌*ℤ◌, quot}
use unix_sys_prog.Scheduler.Memory.{Timespec}

unfoldable pub time_difference : Timespec → Timespec → ℤ
unfolding ◌+ℤ◌ ◌*ℤ◌ quot
time_difference time1 time2 =
    sub_ℕ time1.tv_sec time2.tv_sec *ℤ 1000000 +ℤ quot (sub_ℕ time1.tv_nsec time2.tv_nsec) 1000

-- The time in nanoseconds, which no operation of the program computes.
abbrev pub nanoseconds : Timespec → ℕ
nanoseconds t = t.tv_sec * 1000000000 + t.tv_nsec

-- For two times of the clock, whose nanoseconds are below a second, the first no earlier than the
-- second, the difference is not negative, and less than a microsecond off.
pub time_difference_bounds :
    (time1 time2 : Timespec)
    → time1.tv_nsec < 1000000000
    → time2.tv_nsec < 1000000000
    → nanoseconds time2 ≤ nanoseconds time1
    → (d : ℕ) × (time_difference time1 time2 ≡ pos d)
      × (nanoseconds time2 + d * 1000 < nanoseconds time1 + 1000)
      × (nanoseconds time1 < nanoseconds time2 + d * 1000 + 1000)
unfolding time_difference ◌+ℤ◌ ◌*ℤ◌ quot
time_difference_bounds time1 time2 n1 n2 later =
    (pos_part (time_difference time1 time2), ground arith, ground arith, ground arith)
