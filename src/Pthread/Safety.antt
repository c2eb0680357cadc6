-- ===== src/Pthread/Safety.antt =====
-- pa3_1/pthread_1/main.cpp: the invariant of the semaphores, over any interleaving.
use unix_sys_prog.Common.{ℕ, ◌+◌, ◌<◌, ◌≤◌, ◌≡◌, refl, ap, ◌∙◌, List, arith, length, get_or}
use unix_sys_prog.Common.Sum.{sum, sum-set, sum-get_or, sum-replicate}
use unix_sys_prog.Common.Int.{pos}
use unix_sys_prog.Pthread.{
  init_semaphore, ProducerAt, p_full, p_write, Producer, ConsumerAt, c_empty, c_decrement, System,
  no_producer, Step, producer_moves, consumer_moves, main_moves, start, Reachable, here, later,
}
use unix_sys_prog.Pthread.Balance.{
  p_holds, p_slots, p_items, c_holds, c_items, c_slots, m_holds, producer_moves_lem,
  consumer_moves_lem, main_moves_lem,
}

abbrev pub of_producers : (ProducerAt → ℕ) → System → ℕ
of_producers w s = sum (λ p. w p.at) s.producers

abbrev pub of_consumers : (ConsumerAt → ℕ) → System → ℕ
of_consumers w s = sum w s.consumers

-- `n` characters are in the buffer. The semaphores and what the threads hold of them add up.
pub record IsBalanced (capacity : ℕ) (s : System) (n : ℕ) : Type 0 where
  pub index : s.shared.buffer_index ≡ pos n
  pub mutex : s.shared.mutex + of_producers p_holds s + of_consumers c_holds s + m_holds s.main ≡ 1
  pub full : s.shared.full + of_producers p_slots s + of_consumers c_slots s + n ≡ capacity
  pub empty : s.shared.empty + of_producers p_items s + of_consumers c_items s ≡ n
  pub size : length s.shared.buffer ≡ capacity

start-IsBalanced :
    (junk : List ℕ) (producers writes consumers : ℕ)
    → IsBalanced (length junk) (start junk producers writes consumers) 0
unfolding init_semaphore
start-IsBalanced junk producers writes consumers =
    let p : Producer = record { at = p_full; writes = writes } in
    record {
      index = refl;
      mutex = omega (
        arith,
        sum-replicate (λ (q : Producer). p_holds q.at) producers p refl,
        sum-replicate c_holds consumers c_empty refl,
      );
      full = omega (
        arith,
        sum-replicate (λ (q : Producer). p_slots q.at) producers p refl,
        sum-replicate c_slots consumers c_empty refl,
      );
      empty = omega (
        arith,
        sum-replicate (λ (q : Producer). p_items q.at) producers p refl,
        sum-replicate c_items consumers c_empty refl,
      );
      size = refl;
    }

pub Step-IsBalanced :
    (capacity : ℕ) (s s' : System) (n : ℕ)
    → IsBalanced capacity s n
    → Step s s'
    → (n' : ℕ) × IsBalanced capacity s' n'
Step-IsBalanced capacity _ s' n b (producer_moves s i shared p lt e) =
    let q = get_or s.producers i no_producer in
    let m = producer_moves_lem s.shared shared q.at p.at q.writes p.writes n b.index e in
    (
      m.n',
      record {
        index = m.index;
        mutex = omega (
          arith,
          b.mutex,
          m.mutex,
          sum-set (λ (q : Producer). p_holds q.at) s.producers i p no_producer lt,
        );
        full = omega (
          arith,
          b.full,
          m.full,
          sum-set (λ (q : Producer). p_slots q.at) s.producers i p no_producer lt,
        );
        empty = omega (
          arith,
          b.empty,
          m.empty,
          sum-set (λ (q : Producer). p_items q.at) s.producers i p no_producer lt,
        );
        size = m.size ∙ b.size;
      },
    )
Step-IsBalanced capacity _ s' n b (consumer_moves s i shared c lt e) =
    let m =
      consumer_moves_lem s.shared shared (get_or s.consumers i c_empty) c n b.index
        (omega (arith, b.empty, sum-get_or c_items s.consumers i c_empty lt)) e in
    (
      m.n',
      record {
        index = m.index;
        mutex = omega (arith, b.mutex, m.mutex, sum-set c_holds s.consumers i c c_empty lt);
        full = omega (arith, b.full, m.full, sum-set c_slots s.consumers i c c_empty lt);
        empty = omega (arith, b.empty, m.empty, sum-set c_items s.consumers i c c_empty lt);
        size = m.size ∙ b.size;
      },
    )
Step-IsBalanced capacity _ s' n b (main_moves s shared m e) =
    let v = main_moves_lem s.shared shared s.producers s.main m n b.index e in
    (
      v.n',
      record {
        index = v.index;
        mutex = omega (arith, b.mutex, v.mutex);
        full = omega (arith, b.full, v.full);
        empty = omega (arith, b.empty, v.empty);
        size = v.size ∙ b.size;
      },
    )

pub Reachable-IsBalanced :
    (junk : List ℕ) (producers writes consumers : ℕ) (s : System)
    → Reachable (start junk producers writes consumers) s
    → (n : ℕ) × IsBalanced (length junk) s n
Reachable-IsBalanced junk producers writes consumers s here =
    (0, start-IsBalanced junk producers writes consumers)
Reachable-IsBalanced junk producers writes consumers _ (later t s before step) =
    let (n, b) = Reachable-IsBalanced junk producers writes consumers t before in
    Step-IsBalanced (length junk) t s n b step

-- What the semaphores are for.
pub record IsSafe (capacity : ℕ) (s : System) (n : ℕ) : Type 0 where
  pub index : s.shared.buffer_index ≡ pos n
  pub bounded : n ≤ capacity
  pub exclusive : of_producers p_holds s + of_consumers c_holds s + m_holds s.main ≤ 1
  pub room :
      (i : ℕ)
      → i < length s.producers
      → (get_or s.producers i no_producer).at ≡ p_write
      → n < capacity
  pub stock : (i : ℕ) → i < length s.consumers → get_or s.consumers i c_empty ≡ c_decrement → 0 < n

-- In every state that any interleaving of the threads leads to, at most one thread is between its
-- wait for the mutex and its release, the index is between 0 and the length of the buffer, a producer
-- that is about to write has an index inside the buffer, and a consumer that is about to take finds
-- the index above 0.
pub Reachable-IsSafe :
    (junk : List ℕ) (producers writes consumers : ℕ) (s : System)
    → Reachable (start junk producers writes consumers) s
    → (n : ℕ) × IsSafe (length junk) s n
Reachable-IsSafe junk producers writes consumers s reach =
    let (n, b) = Reachable-IsBalanced junk producers writes consumers s reach in
    (
      n,
      record {
        index = b.index;
        bounded = omega (arith, b.full);
        exclusive = omega (arith, b.mutex);
        room = λ i lt at. omega (
          arith,
          b.full,
          ap p_slots at,
          sum-get_or (λ (p : Producer). p_slots p.at) s.producers i no_producer lt,
        );
        stock = λ i lt at.
            omega (arith, b.empty, ap c_items at, sum-get_or c_items s.consumers i c_empty lt);
      },
    )
