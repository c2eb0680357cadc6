-- ===== src/Monitor/Tests.antt =====
-- Tests and instances for pa2_2/proc_con.
use unix_sys_prog.Common.{◌≡◌, refl, [], ◌∷◌, ◌++◌, arith, get_or, replicate, true, false}
use unix_sys_prog.Common.Int.{pos, negsuc}
use unix_sys_prog.Monitor.{monitor_init}
use unix_sys_prog.Monitor.Steps.{wait_monitor, wait_producer, wait_consumer, wait_cond, put, get}
use unix_sys_prog.Monitor.Insert.{i_enter, i_write, insert_step}
use unix_sys_prog.Monitor.Remove.{r_blocked, remove_step}
use unix_sys_prog.Monitor.System.{
  producer_step, consumer_step, main_step, no_consumer, System, m_join, m_exit, start, Reachable,
  here,
}
use unix_sys_prog.Monitor.Safety.{IsExclusive, Reachable-IsExclusive}
use unix_sys_prog.Monitor.Stale.{Reachable-stale}
use unix_sys_prog.Monitor.Schedule.{
  producer, consumer, main_turn, take_turn, take_turns, take_turns-Reachable,
}

-- One producer that is to write the character 120, and one consumer; the new buffer holds 65.
abbrev begin : System
begin = start (65 ∷ []) ((120 ∷ []) ∷ []) 1

-- The consumer has found the buffer empty and waits, and the producer is about to write.
abbrev writing : System
writing = record {
  shared = record {
    buffer = 65 ∷ [];
    buffer_index = negsuc 0;
    cond_empty = record { blocked = true; blocked_thread_count = pos 1; mutex = 0 };
    cond_full = record { blocked = false; blocked_thread_count = pos 0; mutex = 0 };
    monitor_mutex = 0;
    producer_mutex = 1;
    consumer_mutex = 1;
  };
  producers = record { at = i_write; chars = 120 ∷ [] } ∷ [];
  consumers = record { at = r_blocked; ch = b'a'; returned = [] } ∷ [];
  main = m_join 0;
}

writing-Reachable : Reachable 0 begin writing
unfolding take_turns take_turn producer_step consumer_step insert_step remove_step wait_monitor
    wait_producer wait_consumer wait_cond start monitor_init put get
writing-Reachable =
    take_turns-Reachable 0 (replicate 5 (consumer 0) ++ replicate 4 (producer 0)) begin begin
      writing here refl

Reachable-IsExclusive_example : IsExclusive writing
Reachable-IsExclusive_example =
    Reachable-IsExclusive 0 (65 ∷ []) ((120 ∷ []) ∷ []) 1 writing writing-Reachable

-- The producer has written 120 and ended, and the consumer has got 65 and waits for more.
abbrev ended : System
ended = record {
  shared = record {
    buffer = 65 ∷ [];
    buffer_index = negsuc 0;
    cond_empty = record { blocked = true; blocked_thread_count = pos 1; mutex = 0 };
    cond_full = record { blocked = false; blocked_thread_count = pos 0; mutex = 0 };
    monitor_mutex = 1;
    producer_mutex = 1;
    consumer_mutex = 1;
  };
  producers = record { at = i_enter; chars = [] } ∷ [];
  consumers = record { at = r_blocked; ch = b'a'; returned = 65 ∷ [] } ∷ [];
  main = m_exit;
}

ended-Reachable : Reachable 0 begin ended
unfolding take_turns take_turn producer_step consumer_step main_step insert_step remove_step
    wait_monitor wait_producer wait_consumer wait_cond start monitor_init put get
ended-Reachable =
    take_turns-Reachable 0
      (replicate 18 (producer 0) ++ replicate 23 (consumer 0) ++ replicate 5 main_turn) begin begin
      ended here refl

Reachable-stale_example : (get_or ended.consumers 0 no_consumer).returned ≡ replicate 1 65
Reachable-stale_example =
    Reachable-stale 0 (65 ∷ []) ((120 ∷ []) ∷ []) 1 ended ended-Reachable 0 (omega arith)
