-- ===== src/Pthread/Tests.antt =====
-- Tests and instances for pa3_1/pthread_1.
use unix_sys_prog.Common.{◌⊎◌, ℕ, ◌<◌, ◌≡◌, refl, [], ◌∷◌, ◌++◌, arith, length, get_or, replicate}
use unix_sys_prog.Common.Int.{pos}
use unix_sys_prog.Pthread.{
  sem_wait, pred, write_x, init_semaphore, p_increment, p_exit, producer_step, c_empty,
  consumer_step, m_join, m_exit, main_step, System, no_producer, start, Reachable, here,
}
use unix_sys_prog.Pthread.Balance.{c_items}
use unix_sys_prog.Pthread.Safety.{IsSafe, Reachable-IsSafe, of_consumers}
use unix_sys_prog.Pthread.Finish.{Reachable-drained}
use unix_sys_prog.Pthread.Progress.{CanMove, Reachable-progress}
use unix_sys_prog.Pthread.Schedule.{
  producer, consumer, main_turn, take_turn, take_turns, take_turns-Reachable,
}

-- One producer that writes once, and one consumer, on a buffer of two characters.
abbrev begin : System
begin = start (0 ∷ 0 ∷ []) 1 1 1

-- The producer is about to release the mutex.
abbrev middle : System
middle = record {
  shared = record { empty = 0; full = 1; mutex = 0; buffer = 88 ∷ 0 ∷ []; buffer_index = pos 0 };
  producers = record { at = p_increment; writes = 0 } ∷ [];
  consumers = c_empty ∷ [];
  main = m_join 0;
}

middle-Reachable : Reachable begin middle
unfolding take_turns take_turn producer_step sem_wait write_x init_semaphore
middle-Reachable =
    take_turns-Reachable (producer 0 ∷ producer 0 ∷ producer 0 ∷ []) begin begin middle here refl

Reachable-IsSafe_example : (n : ℕ) × IsSafe 2 middle n
Reachable-IsSafe_example = Reachable-IsSafe (0 ∷ 0 ∷ []) 1 1 1 middle middle-Reachable

Reachable-progress_example :
    CanMove middle
    ⊎ (((j : ℕ) → j < length middle.producers → (get_or middle.producers j no_producer).at ≡ p_exit)
        × (middle.shared.buffer_index ≡ pos 0))
Reachable-progress_example =
    Reachable-progress (0 ∷ 0 ∷ []) 1 1 1 middle (omega arith) middle-Reachable (omega arith)

-- The end of a run.
abbrev ended : System
ended = record {
  shared = record { empty = 0; full = 2; mutex = 1; buffer = 88 ∷ 0 ∷ []; buffer_index = pos 0 };
  producers = record { at = p_exit; writes = 0 } ∷ [];
  consumers = c_empty ∷ [];
  main = m_exit;
}

ended-Reachable : Reachable begin ended
unfolding take_turns take_turn producer_step consumer_step main_step sem_wait write_x pred
    init_semaphore
ended-Reachable =
    take_turns-Reachable
      (replicate 7 (producer 0) ++ replicate 5 (consumer 0) ++ replicate 5 main_turn) begin begin
      ended here refl

Reachable-drained_example :
    ((j : ℕ) → j < length ended.producers → (get_or ended.producers j no_producer).at ≡ p_exit)
    × (ended.shared.buffer_index ≡ pos 0)
    × (of_consumers c_items ended ≡ 0)
Reachable-drained_example = Reachable-drained (0 ∷ 0 ∷ []) 1 1 1 ended ended-Reachable refl
