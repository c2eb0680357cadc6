-- ===== src/Scheduler/Memory.antt =====
-- pa4_1/list.h and scheduler.h: what the functions of list.c, worker.c and scheduler.c share, in one
-- state. Pointers are numbers, `NULL` is 0, and the elements and thread infos stand in two heaps.
use unix_sys_prog.Common.{
  ℕ, zero, Bool, true, false, Option, none, some, List, ◌∷◌, ◌==◌, if◌then◌else◌,
}
use unix_sys_prog.Common.Int.{ℤ, pos}

abbrev pub Ptr : Type 0
Ptr = ℕ

abbrev pub null : Ptr
null = 0

-- `list_elem`
pub record ListElem : Type 0 where
  pub prev : Ptr
  pub next : Ptr
  pub info : Ptr

-- `thread_info_list`. `lock` says whether the mutex is taken.
pub record ThreadInfoList : Type 0 where
  pub head : Ptr
  pub tail : Ptr
  pub lock : Bool

-- `struct timespec`
pub record Timespec : Type 0 where
  pub tv_sec : ℕ
  pub tv_nsec : ℕ

-- `thread_info_t`
pub record ThreadInfo : Type 0 where
  pub thrid : ℕ
  pub quanta : ℤ
  pub le : Ptr
  pub suspend_time : Timespec
  pub resume_time : Timespec
  pub wait_time : ℤ
  pub run_time : ℤ

-- The signals of the program.
pub data Signal : Type 0 where
  sigalrm sigusr1 sigusr2 sigterm : Signal

-- Whether two signals are the same.
abbrev pub same_signal : Signal → Signal → Bool
same_signal sigusr1 sigusr1 = true
same_signal sigusr2 sigusr2 = true
same_signal sigterm sigterm = true
same_signal sigalrm sigalrm = true
same_signal a b = false

-- The two heaps, the global variables of scheduler.c, the signals sent so far, the last one first,
-- and the number of times that the clock has been read.
pub record State : Type 0 where
  pub elems : Ptr → Option ListElem
  pub infos : Ptr → Option ThreadInfo
  pub sched_queue : ThreadInfoList
  pub queue_sem : ℕ
  pub quit : Bool
  pub current_thread : Ptr
  pub wait_times : ℤ
  pub run_times : ℤ
  pub completed : ℕ
  pub thread_count : ℕ
  pub sent : List (ℕ × Signal)
  pub readings : ℕ

-- A write to one place of a heap.
unfoldable pub write : {A : Type 0} → (Ptr → Option A) → Ptr → Option A → Ptr → Option A
write h p c a = if a == p then c else h a

-- `none` stands for a read through `NULL` or a dangling pointer, and for a thread that waits for a
-- mutex that nobody gives back.
abbrev pub Run : Type 0 → Type 0
Run A = State → Option (A × State)

abbrev pub pure : {A : Type 0} → A → Run A
pure a s = some (a, s)

module _ {A B : Type 0} where
  abbrev pub and_then : Option (A × State) → (A → Run B) → Option (B × State)
  and_then none f = none
  and_then (some (a, s)) f = f a s

  infixl 5 ◌>>=◌ ◌>>◌
  abbrev pub ◌>>=◌ : Run A → (A → Run B) → Run B
  m >>= f = λ s. and_then (m s) f

  abbrev pub ◌>>◌ : Run A → Run B → Run B
  m >> n = m >>= λ _. n

-- `!z`
abbrev pub is_zero : ℤ → Bool
is_zero (pos zero) = true
is_zero z = false

-- `if (test) body;`
abbrev pub when : Bool → Run (Unit {0}) → Run (Unit {0})
when true body = body
when false body = pure tt

-- What is read from a place of a heap; `NULL` has nothing.
unfoldable pub load : {A : Type 0} → (Ptr → Option A) → Ptr → Option A
load h p = if p == null then none else h p

-- `*p`, for an element and for a thread info.
abbrev found : {A : Type 0} → Option A → State → Option (A × State)
found none s = none
found (some c) s = some (c, s)

unfoldable pub load_elem : Ptr → Run ListElem
unfolding load
load_elem p s = found (load s.elems p) s

unfoldable pub load_info : Ptr → Run ThreadInfo
unfolding load
load_info p s = found (load s.infos p) s

-- Writes to a heap; `none` gives the place back.
abbrev pub store_elem : Ptr → Option ListElem → Run (Unit {0})
store_elem p c s = some (tt, record s { elems = write s.elems p c })

abbrev pub store_info : Ptr → Option ThreadInfo → Run (Unit {0})
store_info p c s = some (tt, record s { infos = write s.infos p c })

-- `pthread_kill(thrid, signal)`
unfoldable pub pthread_kill : ℕ → Signal → Run (Unit {0})
pthread_kill thrid signal s = some (tt, record s { sent = (thrid, signal) ∷ s.sent })

-- `free(p)`
unfoldable pub free_elem : Ptr → Run (Unit {0})
free_elem p = do load_elem p; store_elem p none

unfoldable pub free_info : Ptr → Run (Unit {0})
free_info p = do load_info p; store_info p none
