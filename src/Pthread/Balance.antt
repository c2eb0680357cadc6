-- ===== src/Pthread/Balance.antt =====
-- pa3_1/pthread_1/main.cpp: what a step does to the semaphores, the index and the places where the
-- threads stand.
use unix_sys_prog.Common.{ℕ, ◌+◌, ◌≤◌, ◌≡◌, some, List, arith, length, length-set}
use unix_sys_prog.Common.Int.{ℤ, pos, negsuc}
use unix_sys_prog.Pthread.{
  Shared, sem_wait, pred, write_x, ProducerAt, p_mutex, p_write, p_increment, p_release, p_signal,
  Producer, producer_step, ConsumerAt, c_mutex, c_decrement, c_release, c_signal, consumer_step,
  MainAt, m_test, m_post, main_step,
}

-- Whether a producer has taken the mutex; a slot that it has not filled yet; an item that it has not
-- signalled yet.
abbrev pub p_holds : ProducerAt → ℕ
p_holds p_write = 1
p_holds p_increment = 1
p_holds p_release = 1
p_holds a = 0

abbrev pub p_slots : ProducerAt → ℕ
p_slots p_mutex = 1
p_slots p_write = 1
p_slots p_increment = 1
p_slots a = 0

abbrev pub p_items : ProducerAt → ℕ
p_items p_release = 1
p_items p_signal = 1
p_items a = 0

-- The same of a consumer: an item that it has not taken yet, a slot that it has not signalled yet.
abbrev pub c_holds : ConsumerAt → ℕ
c_holds c_decrement = 1
c_holds c_release = 1
c_holds a = 0

abbrev pub c_items : ConsumerAt → ℕ
c_items c_mutex = 1
c_items c_decrement = 1
c_items a = 0

abbrev pub c_slots : ConsumerAt → ℕ
c_slots c_release = 1
c_slots c_signal = 1
c_slots a = 0

abbrev pub m_holds : MainAt → ℕ
m_holds m_test = 1
m_holds (m_post b) = 1
m_holds m = 0

abbrev level : ℤ → ℕ
level (pos n) = n
level (negsuc n) = 0

-- A step of one thread, with what it holds before and after, at an index that is `n` before.
pub record Moves (s s' : Shared) (holds holds' slots slots' items items' n : ℕ) : Type 0 where
  pub n' : ℕ
  pub index : s'.buffer_index ≡ pos n'
  pub mutex : s'.mutex + holds' ≡ s.mutex + holds
  pub full : s'.full + slots' + n' ≡ s.full + slots + n
  pub empty : s'.empty + items' + n ≡ s.empty + items + n'
  pub size : length s'.buffer ≡ length s.buffer

-- What a producer's slots and a consumer's are worth: a slot taken and not filled, a slot emptied
-- and not given back; likewise for items.
pub producer_moves_lem :
    (s s' : Shared) (a a' : ProducerAt) (w w' n : ℕ)
    → s.buffer_index ≡ pos n
    → producer_step s (record { at = a; writes = w }) ≡ some (s', record { at = a'; writes = w' })
    → Moves s s' (p_holds a) (p_holds a') (p_slots a) (p_slots a') (p_items a) (p_items a') n
unfolding producer_step sem_wait write_x
producer_moves_lem s s' a a' w w' n index step = record {
  n' = level s'.buffer_index;
  index = ground (arith);
  mutex = ground (arith);
  full = ground (arith);
  empty = ground (arith);
  size = ground (arith, length-set s.buffer n 88);
}

pub consumer_moves_lem :
    (s s' : Shared) (a a' : ConsumerAt) (n : ℕ)
    → s.buffer_index ≡ pos n
    → c_items a ≤ n
    → consumer_step s a ≡ some (s', a')
    → Moves s s' (c_holds a) (c_holds a') (c_slots a) (c_slots a') (c_items a) (c_items a') n
unfolding consumer_step sem_wait pred
consumer_moves_lem s s' a a' n index enough step = record {
  n' = level s'.buffer_index;
  index = ground (arith);
  mutex = ground (arith);
  full = ground (arith);
  empty = ground (arith);
  size = ground (arith);
}

pub main_moves_lem :
    (s s' : Shared) (ps : List Producer) (m m' : MainAt) (n : ℕ)
    → s.buffer_index ≡ pos n
    → main_step s ps m ≡ some (s', m')
    → Moves s s' (m_holds m) (m_holds m') 0 0 0 0 n
unfolding main_step sem_wait
main_moves_lem s s' ps m m' n index step = record {
  n' = level s'.buffer_index;
  index = ground (arith);
  mutex = ground (arith);
  full = ground (arith);
  empty = ground (arith);
  size = ground (arith);
}
