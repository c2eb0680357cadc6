-- ===== src/Scheduler/ThreadList.antt =====
-- pa4_1/list.c: the doubly linked list of workers. An operation takes the mutex of the list, changes
-- the elements that it concerns, and gives the mutex back. The only list of the program is
-- `sched_queue`. What `print_list` writes is returned as a list of numbers.
pub mod Segment
pub mod Inserting
pub mod Sequence
pub mod Refinement
pub mod Walks
pub mod Removing
pub mod RemovingEnds
pub mod Steps
use unix_sys_prog.Common.{
  ℕ, zero, suc, ◌+◌, Bool, true, false, not, ◌||◌, Option, none, some, List, [], ◌∷◌, ◌==◌,
  if◌then◌else◌,
}
use unix_sys_prog.Common.Int.{ℤ, pos, negsuc}
use unix_sys_prog.Scheduler.Memory.{
  Ptr, null, ListElem, ThreadInfoList, State, Run, pure, ◌>>=◌, ◌>>◌, when, load_elem, store_elem,
}

-- A pointer to a list: the list is the one of the program.
pub data ListPtr : Type 0 where
  null_list : ListPtr
  sched_queue : ListPtr

-- `!list`
abbrev pub is_null : ListPtr → Bool
is_null null_list = true
is_null sched_queue = false

-- `*list`, and a write to it.
abbrev pub get_list : Run ThreadInfoList
get_list s = some (s.sched_queue, s)

abbrev pub put_list : ThreadInfoList → Run (Unit {0})
put_list l s = some (tt, record s { sched_queue = l })

-- A thread that holds the mutex, or finds it taken by one that has stopped, waits for ever.
unfoldable pub pthread_mutex_lock : Run (Unit {0})
pthread_mutex_lock = do
  l ← get_list
  if l.lock then (λ _. none) else put_list (record l { lock = true })

unfoldable pub pthread_mutex_unlock : Run (Unit {0})
pthread_mutex_unlock = do l ← get_list; put_list (record l { lock = false })

-- `p->next = q`, `p->prev = q`, `list->head = p` and `list->tail = p`.
unfoldable pub set_next : Ptr → Ptr → Run (Unit {0})
set_next p q = do e ← load_elem p; store_elem p (some (record e { next = q }))

unfoldable pub set_prev : Ptr → Ptr → Run (Unit {0})
set_prev p q = do e ← load_elem p; store_elem p (some (record e { prev = q }))

abbrev pub set_head : Ptr → Run (Unit {0})
set_head p = do l ← get_list; put_list (record l { head = p })

abbrev pub set_tail : Ptr → Run (Unit {0})
set_tail p = do l ← get_list; put_list (record l { tail = p })

-- The loop of `list_size`: the elements from `le` on. Each round takes one unit of fuel.
unfoldable pub size_loop : ℕ → Ptr → ℕ → Run ℕ
size_loop zero le cnt = λ _. none
size_loop (suc fuel) le cnt =
    if le == null then pure cnt else do e ← load_elem le; size_loop fuel e.next (cnt + 1)

unfoldable pub list_size : ℕ → ListPtr → Run ℤ
list_size fuel list = if is_null list then pure (negsuc 0) else do
  pthread_mutex_lock
  l ← get_list
  cnt ← size_loop fuel l.head 0
  pthread_mutex_unlock
  pure (pos cnt)

unfoldable pub list_insert_head : ListPtr → Ptr → Run ℤ
list_insert_head list new = if is_null list || new == null then pure (negsuc 0) else do
  pthread_mutex_lock
  l ← get_list
  set_next new l.head
  set_prev new null
  e ← load_elem new
  when (not (e.next == null)) (set_prev e.next new)
  set_head new
  l' ← get_list
  when (l'.tail == null) (set_tail new)
  pthread_mutex_unlock
  pure (pos 0)

unfoldable pub list_insert_tail : ListPtr → Ptr → Run ℤ
list_insert_tail list new = if is_null list || new == null then pure (negsuc 0) else do
  pthread_mutex_lock
  l ← get_list
  set_prev new l.tail
  set_next new null
  e ← load_elem new
  when (not (e.prev == null)) (set_next e.prev new)
  set_tail new
  l' ← get_list
  when (l'.head == null) (set_head new)
  pthread_mutex_unlock
  pure (pos 0)

unfoldable pub list_remove : ListPtr → Ptr → Run ℤ
list_remove list old = if old == null || is_null list then pure (negsuc 0) else do
  pthread_mutex_lock
  e ← load_elem old
  when (not (e.next == null)) (set_prev e.next e.prev)
  e1 ← load_elem old
  when (not (e1.prev == null)) (set_next e1.prev e1.next)
  e2 ← load_elem old
  l ← get_list
  when (l.tail == old) (set_tail e2.prev)
  l' ← get_list
  when (l'.head == old) (set_head e2.next)
  set_prev old null
  set_next old null
  pthread_mutex_unlock
  pure (pos 0)

-- The loop of `print_list`, with the text of each element left as its number.
unfoldable pub print_loop : ℕ → Ptr → Run (List Ptr)
print_loop zero le = λ _. none
print_loop (suc fuel) le =
    if le == null
    then pure []
    else do e ← load_elem le; rest ← print_loop fuel e.next; pure (e.info ∷ rest)

unfoldable pub print_list : ℕ → Run (List Ptr)
print_list fuel = do
  pthread_mutex_lock
  l ← get_list
  printed ← print_loop fuel l.head
  pthread_mutex_unlock
  pure printed
