-- ===== src/Pthread.antt =====
-- pa3_1/pthread_1/main.cpp: ten producers and ten consumers on one buffer, with the semaphores
-- `empty`, `full` and `mutex`. Each step of a thread is one call of a semaphore or one statement on
-- the shared variables; the threads' steps interleave in any order. The threads exist from the
-- start: one that is not created yet is one that has not moved. The branch for a thread that cannot
-- be created, and what is printed, are left out. The length of the buffer and the numbers of threads
-- and writes are parameters.
pub mod Balance
pub mod Safety
pub mod Finish
pub mod Progress
pub mod Schedule
mod Tests
use unix_sys_prog.Common.{
  ℕ, zero, suc, ◌+◌, ◌-◌, ◌<◌, ◌≡◌, Bool, true, false, Option, some, none, List, [], ◌∷◌, length,
  get_or, set, replicate, not, ltb, if◌then◌else◌,
}
use unix_sys_prog.Common.Int.{ℤ, pos, negsuc, succ}

-- The semaphores and the shared variables.
pub record Shared : Type 0 where
  pub empty : ℕ
  pub full : ℕ
  pub mutex : ℕ
  pub buffer : List ℕ
  pub buffer_index : ℤ

-- `sem_wait` goes on only if the value is above zero.
unfoldable pub sem_wait : ℕ → Option ℕ
sem_wait zero = none
sem_wait (suc n) = some n

-- `buffer_index -= 1`
unfoldable pub pred : ℤ → ℤ
pred (pos zero) = negsuc 0
pred (pos (suc n)) = pos n
pred (negsuc n) = negsuc (n + 1)

-- `*(buffer + buffer_index)= 'X'`. A write in front of the buffer is not defined.
unfoldable pub write_x : List ℕ → ℤ → List ℕ
write_x buffer (pos n) = set buffer n 88
write_x buffer (negsuc n) = buffer

-- `init_semaphore`, with `buffer_index` 0 and a new buffer, whose contents are `junk`.
unfoldable pub init_semaphore : List ℕ → Shared
init_semaphore junk = record {
  empty = 0;
  full = length junk - 0;
  mutex = 1;
  buffer = junk;
  buffer_index = pos 0;
}

-- The statement that a producer is at, and the writes it has still to begin.
pub data ProducerAt : Type 0 where
  p_full p_mutex p_write p_increment p_release p_signal p_exit : ProducerAt

pub record Producer : Type 0 where
  pub at : ProducerAt
  pub writes : ℕ

-- A step of `producer_function`; none while the thread is blocked or has returned.
unfoldable pub producer_step : Shared → Producer → Option (Shared × Producer)
producer_step s p = elim p.at [
  | p_full ↦ elim p.writes [
    | zero ↦ some (s, record p { at = p_exit })
    | suc left ↦ elim (sem_wait s.full) [
      | none ↦ none
      | some n ↦ some (record s { full = n }, record { at = p_mutex; writes = left })
    ]
  ]
  | p_mutex ↦ elim (sem_wait s.mutex) [
    | none ↦ none
    | some n ↦ some (record s { mutex = n }, record p { at = p_write })
  ]
  | p_write ↦
      some (record s { buffer = write_x s.buffer s.buffer_index }, record p { at = p_increment })
  | p_increment ↦
      some (record s { buffer_index = succ s.buffer_index }, record p { at = p_release })
  | p_release ↦ some (record s { mutex = s.mutex + 1 }, record p { at = p_signal })
  | p_signal ↦ some (record s { empty = s.empty + 1 }, record p { at = p_full })
  | p_exit ↦ none
]

pub data ConsumerAt : Type 0 where
  c_empty c_mutex c_decrement c_release c_signal : ConsumerAt

-- A step of `consumer_function`.
unfoldable pub consumer_step : Shared → ConsumerAt → Option (Shared × ConsumerAt)
consumer_step s c = elim c [
  | c_empty ↦ elim (sem_wait s.empty) [
    | none ↦ none
    | some n ↦ some (record s { empty = n }, c_mutex)
  ]
  | c_mutex ↦ elim (sem_wait s.mutex) [
    | none ↦ none
    | some n ↦ some (record s { mutex = n }, c_decrement)
  ]
  | c_decrement ↦ some (record s { buffer_index = pred s.buffer_index }, c_release)
  | c_release ↦ some (record s { mutex = s.mutex + 1 }, c_signal)
  | c_signal ↦ some (record s { full = s.full + 1 }, c_empty)
]

-- The main thread: joining the producer `i`, then the loop that waits for the buffer to be read.
-- `m_post` remembers the new value of `loop`.
pub data MainAt : Type 0 where
  m_join : ℕ → MainAt
  m_wait m_test : MainAt
  m_post : Bool → MainAt
  m_exit : MainAt

pub record System : Type 0 where
  pub shared : Shared
  pub producers : List Producer
  pub consumers : List ConsumerAt
  pub main : MainAt

abbrev pub no_producer : Producer
no_producer = record { at = p_exit; writes = 0 }

abbrev pub is_exit : ProducerAt → Bool
is_exit p_exit = true
is_exit a = false

abbrev pub is_zero : ℤ → Bool
is_zero (pos zero) = true
is_zero z = false

-- A step of `main`, from the first `pthread_join` to the end of the loop.
unfoldable pub main_step : Shared → List Producer → MainAt → Option (Shared × MainAt)
main_step s producers (m_join i) =
    if ltb i (length producers)
    then (if is_exit (get_or producers i no_producer).at then some (s, m_join (i + 1)) else none)
    else some (s, m_wait)
main_step s producers m_wait = elim (sem_wait s.mutex) [
  | none ↦ none
  | some n ↦ some (record s { mutex = n }, m_test)
]
main_step s producers m_test = some (s, m_post (not (is_zero s.buffer_index)))
main_step s producers (m_post true) = some (record s { mutex = s.mutex + 1 }, m_wait)
main_step s producers (m_post false) = some (record s { mutex = s.mutex + 1 }, m_exit)
main_step s producers m_exit = none

-- The threads take turns in any order.
pub data Step : System → System → Type 0 where
  producer_moves :
      (s : System) (i : ℕ) (shared : Shared) (p : Producer)
      → i < length s.producers
      → producer_step s.shared (get_or s.producers i no_producer) ≡ some (shared, p)
      → Step s (record s { shared = shared; producers = set s.producers i p })
  consumer_moves :
      (s : System) (i : ℕ) (shared : Shared) (c : ConsumerAt)
      → i < length s.consumers
      → consumer_step s.shared (get_or s.consumers i c_empty) ≡ some (shared, c)
      → Step s (record s { shared = shared; consumers = set s.consumers i c })
  main_moves :
      (s : System) (shared : Shared) (m : MainAt)
      → main_step s.shared s.producers s.main ≡ some (shared, m)
      → Step s (record s { shared = shared; main = m })

-- The start, with so many producers, writes for each, and consumers.
abbrev pub start : List ℕ → ℕ → ℕ → ℕ → System
start junk producers writes consumers = record {
  shared = init_semaphore junk;
  producers = replicate producers (record { at = p_full; writes = writes });
  consumers = replicate consumers c_empty;
  main = m_join 0;
}

pub data Reachable (from : System) : System → Type 0 where
  here : Reachable from from
  later : (s s' : System) → Reachable from s → Step s s' → Reachable from s'
