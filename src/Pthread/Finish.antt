-- ===== src/Pthread/Finish.antt =====
-- pa3_1/pthread_1/main.cpp: what has happened when `main` leaves its loop.
use unix_sys_prog.Common.{
  inl, inr, ℕ, ◌<◌, ◌≡◌, ◌≢◌, sym, ap, subst, subst, ◌∙◌, Bool, true, false, some, List, arith,
  length, get_or, length-set, get_or-set_ne,
}
use unix_sys_prog.Common.Int.{pos}
use unix_sys_prog.Paging.Count.{ℕ-split}
use unix_sys_prog.Pthread.{
  Shared, sem_wait, p_exit, Producer, producer_step, ConsumerAt, c_empty, consumer_step, MainAt,
  m_join, m_post, m_exit, main_step, System, no_producer, Step, producer_moves, consumer_moves,
  main_moves, start, Reachable, here, later,
}
use unix_sys_prog.Pthread.Balance.{c_items}
use unix_sys_prog.Pthread.Safety.{IsBalanced, Reachable-IsBalanced, of_consumers}
use unix_sys_prog.Common.Sum.{sum-get_or}

-- How many producers `main` has joined.
abbrev joined : MainAt → ℕ → ℕ
joined (m_join i) all = i
joined m all = all

-- Whether `main` has found the buffer empty.
abbrev is_leaving : MainAt → Bool
is_leaving (m_post false) = true
is_leaving m_exit = true
is_leaving m = false

record IsFinishing (s : System) : Type 0 where
  returned :
      (j : ℕ)
      → j < joined s.main (length s.producers)
      → j < length s.producers
      → (get_or s.producers j no_producer).at ≡ p_exit
  emptied : is_leaving s.main ≡ true → s.shared.buffer_index ≡ pos 0

exited-stays :
    (s : Shared) (p : Producer) (r : Shared × Producer) → producer_step s p ≡ some r → p.at ≢ p_exit
unfolding producer_step
exited-stays s p r e at = ground (arith, e, at)

consumer-waits :
    (s s' : Shared) (c c' : ConsumerAt)
    → consumer_step s c ≡ some (s', c')
    → c_items c ≡ 0
    → s'.buffer_index ≡ s.buffer_index
unfolding consumer_step sem_wait
consumer-waits s s' c c' e items = ground (arith, e, items)

leaving-joined : (m : MainAt) (all : ℕ) → is_leaving m ≡ true → joined m all ≡ all
leaving-joined m all h = ground arith

main-joins :
    (s s' : Shared) (ps : List Producer) (m m' : MainAt) (j : ℕ)
    → main_step s ps m ≡ some (s', m')
    → ((i : ℕ) → i < joined m (length ps) → i < length ps → (get_or ps i no_producer).at ≡ p_exit)
    → j < joined m' (length ps)
    → j < length ps
    → (get_or ps j no_producer).at ≡ p_exit
unfolding main_step sem_wait
main-joins s s' ps m m' j e all lt inside = ground (arith, e, all j)

main-empties :
    (s s' : Shared) (ps : List Producer) (m m' : MainAt)
    → main_step s ps m ≡ some (s', m')
    → (is_leaving m ≡ true → s.buffer_index ≡ pos 0)
    → is_leaving m' ≡ true
    → s'.buffer_index ≡ pos 0
unfolding main_step sem_wait
main-empties s s' ps m m' e before now = ground (arith, e, before, now)

-- An empty buffer leaves no item for a consumer.
no_items :
    (capacity : ℕ) (s : System) (n i : ℕ)
    → IsBalanced capacity s n
    → s.shared.buffer_index ≡ pos 0
    → i < length s.consumers
    → c_items (get_or s.consumers i c_empty) ≡ 0
no_items capacity s n i b empty lt =
    let z : n ≡ 0 = cc (b.index, empty) in
    omega (arith, z, b.empty, sum-get_or c_items s.consumers i c_empty lt)

Step-IsFinishing :
    (capacity : ℕ) (s s' : System) (n : ℕ)
    → IsBalanced capacity s n
    → IsFinishing s
    → Step s s'
    → IsFinishing s'
Step-IsFinishing capacity _ s' n b f (producer_moves s i shared p lt e) =
    let busy = exited-stays s.shared (get_or s.producers i no_producer) (shared, p) e in
    let size = length-set s.producers i p in
    record {
      returned = λ j j_lt inside.
          let was =
            f.returned j (subst (λ k. j < joined s.main k) size j_lt) (omega (arith, size)) in
          elim (ℕ-split j i) [
            | inl same ↦
                absurd (busy (ap (λ k. (get_or s.producers k no_producer).at) (sym same) ∙ was))
            | inr other ↦
                ap (λ (q : Producer). q.at)
                  (get_or-set_ne s.producers i j p no_producer (λ same. other (sym same)))
                ∙ was
          ];
      emptied = λ leaving. absurd (
          busy (
            f.returned i (omega (arith, lt, leaving-joined s.main (length s.producers) leaving))
              lt));
    }
Step-IsFinishing capacity _ s' n b f (consumer_moves s i shared c lt e) = record {
  returned = f.returned;
  emptied = λ leaving.
      consumer-waits s.shared shared (get_or s.consumers i c_empty) c e
        (no_items capacity s n i b (f.emptied leaving) lt)
      ∙ f.emptied leaving;
}
Step-IsFinishing capacity _ s' n b f (main_moves s shared m e) = record {
  returned = λ j. main-joins s.shared shared s.producers s.main m j e f.returned;
  emptied = main-empties s.shared shared s.producers s.main m e f.emptied;
}

Reachable-IsFinishing :
    (junk : List ℕ) (producers writes consumers : ℕ) (s : System)
    → Reachable (start junk producers writes consumers) s
    → IsFinishing s
Reachable-IsFinishing junk producers writes consumers _ here = record {
  returned = λ j lt. absurd (omega arith);
  emptied = λ h. cc;
}
Reachable-IsFinishing junk producers writes consumers _ (later t s before step) =
    let (n, b) = Reachable-IsBalanced junk producers writes consumers t before in
    Step-IsFinishing (length junk) t s n b
      (Reachable-IsFinishing junk producers writes consumers t before) step

-- Once `main` has left its loop, by whatever interleaving, all producers have returned, the index is
-- 0, and no consumer has been let through to take another character.
pub Reachable-drained :
    (junk : List ℕ) (producers writes consumers : ℕ) (s : System)
    → Reachable (start junk producers writes consumers) s
    → s.main ≡ m_exit
    → ((j : ℕ) → j < length s.producers → (get_or s.producers j no_producer).at ≡ p_exit)
      × (s.shared.buffer_index ≡ pos 0)
      × (of_consumers c_items s ≡ 0)
Reachable-drained junk producers writes consumers s reach over =
    let f = Reachable-IsFinishing junk producers writes consumers s reach in
    let (n, b) = Reachable-IsBalanced junk producers writes consumers s reach in
    let leaving : is_leaving s.main ≡ true = ap is_leaving over in
    let empty = f.emptied leaving in
    let z : n ≡ 0 = cc (b.index, empty) in
    (
      λ j lt.
          f.returned j (omega (arith, lt, leaving-joined s.main (length s.producers) leaving)) lt,
      empty,
      omega (arith, z, b.empty),
    )
