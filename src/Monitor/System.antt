-- ===== src/Monitor/System.antt =====
-- pa2_2/proc_con/main.c: the threads, taking turns in any order.
use unix_sys_prog.Common.{
  ℕ, ◌+◌, ◌<◌, ◌≡◌, Bool, true, false, Option, none, some, List, [], ◌∷◌, length, get_or, set,
  replicate, map, ltb, ◌==◌, if◌then◌else◌,
}
use unix_sys_prog.Common.Int.{ℤ, pos, negsuc}
use unix_sys_prog.Monitor.{Shared, monitor_init}
use unix_sys_prog.Monitor.Steps.{wait_consumer, post_consumer}
use unix_sys_prog.Monitor.Insert.{InsertAt, i_enter, i_return, insert_step}
use unix_sys_prog.Monitor.Remove.{RemoveAt, r_enter, r_return, remove_step}

-- A thread of `producer_function`: where it is in `monitor_insert`, and the characters that it has
-- still to insert, that of the call first.
pub record Producer : Type 0 where
  pub at : InsertAt
  pub chars : List ℕ

-- A thread of `consumer_function`: where it is in `monitor_remove`, its variable `ch`, and what the
-- calls have returned, the last one first.
pub record Consumer : Type 0 where
  pub at : RemoveAt
  pub ch : ℕ
  pub returned : List ℕ

abbrev pub insert_returned : InsertAt → Bool
insert_returned i_return = true
insert_returned at = false

abbrev pub remove_returned : RemoveAt → Bool
remove_returned r_return = true
remove_returned at = false

abbrev inserting : List ℕ → Option (Shared × InsertAt) → Option (Shared × Producer)
inserting chars none = none
inserting chars (some (s, at)) = some (s, record { at = at; chars = chars })

abbrev removing : List ℕ → Option (Shared × ℕ × RemoveAt) → Option (Shared × Consumer)
removing returned none = none
removing returned (some (s, ch, at)) = some (s, record { at = at; ch = ch; returned = returned })

-- A step of `producer_function`; none while the thread is blocked or has returned.
unfoldable pub producer_step : Shared → Producer → Option (Shared × Producer)
producer_step s p = elim p.chars [
  | [] ↦ none
  | ch ∷ rest ↦
      if insert_returned p.at
      then some (s, record { at = i_enter; chars = rest })
      else inserting (ch ∷ rest) (insert_step s ch p.at)
]

-- A step of `consumer_function`. A call starts with `ch = 'a'`.
unfoldable pub consumer_step : ℕ → Shared → Consumer → Option (Shared × Consumer)
consumer_step junk s c =
    if remove_returned c.at
    then some (s, record { at = r_enter; ch = b'a'; returned = c.ch ∷ c.returned })
    else removing c.returned (remove_step junk s c.ch c.at)

-- The main thread: joining the producer `i`, then the loop that waits until all consumers are blocked.
pub data MainAt : Type 0 where
  m_join : ℕ → MainAt
  m_lock m_count : MainAt
  m_unlock : ℤ → MainAt
  m_exit : MainAt

pub record System : Type 0 where
  pub shared : Shared
  pub producers : List Producer
  pub consumers : List Consumer
  pub main : MainAt

abbrev pub no_producer : Producer
no_producer = record { at = i_enter; chars = [] }

abbrev pub no_consumer : Consumer
no_consumer = record { at = r_enter; ch = b'a'; returned = [] }

abbrev has_returned : List ℕ → Bool
has_returned [] = true
has_returned (ch ∷ rest) = false

-- `NumConsumer == num`
abbrev equals : ℤ → ℕ → Bool
equals (pos n) m = n == m
equals (negsuc n) m = false

abbrev counting : Option Shared → Option (Shared × MainAt)
counting none = none
counting (some s) = some (s, m_count)

-- A step of `main`, from the first `pthread_join` to the end of the loop.
unfoldable pub main_step : System → Option (Shared × MainAt)
main_step s = elim s.main [
  | m_join i ↦
      if ltb i (length s.producers)
      then (if has_returned (get_or s.producers i no_producer).chars
          then some (s.shared, m_join (i + 1))
          else none)
      else some (s.shared, m_lock)
  | m_lock ↦ counting (wait_consumer s.shared)
  | m_count ↦ some (s.shared, m_unlock s.shared.cond_empty.blocked_thread_count)
  | m_unlock num ↦
      some (post_consumer s.shared, if equals num (length s.consumers) then m_exit else m_lock)
  | m_exit ↦ none
]

-- The threads take turns in any order.
pub data Step (junk : ℕ) : System → System → Type 0 where
  producer_moves :
      (s : System) (i : ℕ) (shared : Shared) (p : Producer)
      → i < length s.producers
      → producer_step s.shared (get_or s.producers i no_producer) ≡ some (shared, p)
      → Step junk s (record s { shared = shared; producers = set s.producers i p })
  consumer_moves :
      (s : System) (i : ℕ) (shared : Shared) (c : Consumer)
      → i < length s.consumers
      → consumer_step junk s.shared (get_or s.consumers i no_consumer) ≡ some (shared, c)
      → Step junk s (record s { shared = shared; consumers = set s.consumers i c })
  main_moves :
      (s : System) (shared : Shared) (m : MainAt)
      → main_step s ≡ some (shared, m)
      → Step junk s (record s { shared = shared; main = m })

-- The characters that each producer is to write, and the number of consumers.
unfoldable pub start : List ℕ → List (List ℕ) → ℕ → System
start buffer chars consumers = record {
  shared = monitor_init buffer;
  producers = map (λ cs. record { at = i_enter; chars = cs }) chars;
  consumers = replicate consumers no_consumer;
  main = m_join 0;
}

-- The states that some interleaving leads to.
pub data Reachable (junk : ℕ) (s : System) : System → Type 0 where
  here : Reachable junk s s
  later : (t u : System) → Reachable junk s t → Step junk t u → Reachable junk s u
