-- ===== src/Monitor/Threads.antt =====
-- pa2_2/proc_con/main.c: what a step of a thread does to the monitor.
use unix_sys_prog.Common.{ℕ, ◌<◌, ◌≡◌, refl, true, some, List, [], ◌∷◌, arith}
use unix_sys_prog.Monitor.{Shared}
use unix_sys_prog.Monitor.Steps.{wait_consumer}
use unix_sys_prog.Monitor.Insert.{InsertAt, i_return, insert_step}
use unix_sys_prog.Monitor.Remove.{RemoveAt, r_return, remove_step}
use unix_sys_prog.Monitor.Phase.{
  Phase, is_rest, insert_place, remove_place, wrong, In, Moves, insert_step-Moves,
  remove_step-Moves,
}
use unix_sys_prog.Monitor.System.{System, producer_step, consumer_step, main_step, MainAt}

pub producer_step-Moves :
    (s s' : Shared) (at at' : InsertAt) (chars chars' : List ℕ) (ph : Phase)
    → In ph s
    → wrong ph (insert_place at) ≡ 0
    → (0 < s.monitor_mutex → is_rest ph ≡ true)
    → producer_step s (record { at = at; chars = chars })
      ≡ some (s', record { at = at'; chars = chars' })
    → Moves s s' (insert_place at) (insert_place at') ph
unfolding producer_step insert_step
producer_step-Moves s s' at at' [] chars' ph flags right calm step = absurd (ground arith)
producer_step-Moves s s' i_return at' (ch ∷ rest) chars' ph flags right calm step = record {
  after = ph;
  flags = record {
    at_index = ground (arith, flags.at_index);
    empty_flag = ground (arith, flags.empty_flag);
    full_flag = ground (arith, flags.full_flag);
  };
  mutex = ground arith;
  right = ground arith;
  alone = λ _. refl;
  leaves = ground arith;
  buffer = ground arith;
}
producer_step-Moves s s' at at' (ch ∷ rest) chars' ph flags right calm step =
    insert_step-Moves s s' ch at at' ph flags right calm (ground arith)

pub consumer_step-Moves :
    (junk : ℕ) (s s' : Shared) (ch ch' : ℕ) (at at' : RemoveAt) (returned returned' : List ℕ)
    (ph : Phase)
    → In ph s
    → wrong ph (remove_place at) ≡ 0
    → (0 < s.monitor_mutex → is_rest ph ≡ true)
    → consumer_step junk s (record { at = at; ch = ch; returned = returned })
      ≡ some (s', record { at = at'; ch = ch'; returned = returned' })
    → Moves s s' (remove_place at) (remove_place at') ph
unfolding consumer_step remove_step
consumer_step-Moves junk s s' ch ch' r_return at' returned returned' ph flags right calm step =
    record {
      after = ph;
      flags = record {
        at_index = ground (arith, flags.at_index);
        empty_flag = ground (arith, flags.empty_flag);
        full_flag = ground (arith, flags.full_flag);
      };
      mutex = ground arith;
      right = ground arith;
      alone = λ _. refl;
      leaves = ground arith;
      buffer = ground arith;
    }
consumer_step-Moves junk s s' ch ch' at at' returned returned' ph flags right calm step =
    remove_step-Moves junk s s' ch ch' at at' ph flags right calm (ground arith)

-- What the main thread leaves alone.
pub record Keeps (s s' : Shared) : Type 0 where
  pub index : s'.buffer_index ≡ s.buffer_index
  pub empty : s'.cond_empty.blocked ≡ s.cond_empty.blocked
  pub full : s'.cond_full.blocked ≡ s.cond_full.blocked
  pub mutex : s'.monitor_mutex ≡ s.monitor_mutex
  pub buffer : s'.buffer ≡ s.buffer

pub main_step-Keeps :
    (s : System) (shared : Shared) (m : MainAt)
    → main_step s ≡ some (shared, m)
    → Keeps s.shared shared
unfolding main_step wait_consumer
main_step-Keeps s shared m step = record {
  index = ground arith;
  empty = ground arith;
  full = ground arith;
  mutex = ground arith;
  buffer = ground arith;
}
