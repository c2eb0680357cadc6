-- ===== src/Monitor/Phase.antt =====
-- pa2_2/proc_con/monitor.c: the index and the two flags, while a thread is in the monitor and while
-- none is.
use unix_sys_prog.Common.{ℕ, ◌+◌, ◌<◌, ◌≡◌, Bool, true, false, some, arith, if◌then◌else◌}
use unix_sys_prog.Common.Int.{ℤ, pos, negsuc}
use unix_sys_prog.Monitor.{Shared}
use unix_sys_prog.Monitor.Steps.{wait_monitor, wait_producer, wait_consumer, wait_cond, put, get}
use unix_sys_prog.Monitor.Insert.{
  InsertAt, i_enter, i_guard, i_test, i_unguard_blocked, i_leave_blocked, i_blocked, i_unguard,
  i_write, i_increment, i_lock_empty, i_clear_empty, i_set_full, i_full_unlock, i_leave, i_return,
  insert_step,
}
use unix_sys_prog.Monitor.Remove.{
  RemoveAt, r_enter, r_guard, r_test, r_unguard_blocked, r_leave_blocked, r_blocked, r_unguard,
  r_read, r_decrement, r_clear_full, r_unlock_full, r_is_empty, r_empty_lock, r_set_empty,
  r_empty_unlock, r_leave, r_return, remove_step,
}

-- An empty buffer, one with a new character before and after `cond_empty` is cleared, a full one, and
-- one without its character before and after `cond_full` is cleared.
pub data Phase : Type 0 where
  empty inserted cleared full removed opened : Phase

abbrev pub index : Phase → ℤ
index empty = negsuc 0
index inserted = pos 0
index cleared = pos 0
index full = pos 0
index removed = negsuc 0
index opened = negsuc 0

abbrev pub empty_blocked : Phase → Bool
empty_blocked empty = true
empty_blocked inserted = true
empty_blocked cleared = false
empty_blocked full = false
empty_blocked removed = false
empty_blocked opened = false

abbrev pub full_blocked : Phase → Bool
full_blocked full = true
full_blocked removed = true
full_blocked p = false

abbrev pub is_rest : Phase → Bool
is_rest empty = true
is_rest full = true
is_rest p = false

abbrev pub same_phase : Phase → Phase → Bool
same_phase empty empty = true
same_phase inserted inserted = true
same_phase cleared cleared = true
same_phase full full = true
same_phase removed removed = true
same_phase opened opened = true
same_phase a b = false

-- Where a thread is: outside of the monitor, in it before its test, or in it in a phase.
pub data Place : Type 0 where
  outside before_test : Place
  within : Phase → Place

abbrev pub insert_place : InsertAt → Place
insert_place i_enter = outside
insert_place i_guard = before_test
insert_place i_test = before_test
insert_place i_unguard_blocked = before_test
insert_place i_leave_blocked = before_test
insert_place i_blocked = outside
insert_place i_unguard = within empty
insert_place i_write = within empty
insert_place i_increment = within empty
insert_place i_lock_empty = within inserted
insert_place i_clear_empty = within inserted
insert_place i_full_unlock = within full
insert_place i_leave = within full
insert_place i_return = outside
insert_place at = within cleared

abbrev pub remove_place : RemoveAt → Place
remove_place r_enter = outside
remove_place r_guard = before_test
remove_place r_test = before_test
remove_place r_unguard_blocked = before_test
remove_place r_leave_blocked = before_test
remove_place r_blocked = outside
remove_place r_unguard = within full
remove_place r_read = within full
remove_place r_decrement = within full
remove_place r_unlock_full = within opened
remove_place r_is_empty = within opened
remove_place r_empty_lock = within opened
remove_place r_set_empty = within opened
remove_place r_empty_unlock = within empty
remove_place r_leave = within empty
remove_place r_return = outside
remove_place at = within removed

-- Whether a thread is in the monitor, and whether it is there in the wrong phase.
abbrev pub inside : Place → ℕ
inside outside = 0
inside p = 1

abbrev pub wrong : Phase → Place → ℕ
wrong ph outside = 0
wrong ph before_test = if is_rest ph then 0 else 1
wrong ph (within p) = if same_phase ph p then 0 else 1

pub record In (ph : Phase) (s : Shared) : Type 0 where
  pub at_index : s.buffer_index ≡ index ph
  pub empty_flag : s.cond_empty.blocked ≡ empty_blocked ph
  pub full_flag : s.cond_full.blocked ≡ full_blocked ph

-- What a step of a thread does to the monitor.
pub record Moves (s s' : Shared) (p p' : Place) (ph : Phase) : Type 0 where
  pub after : Phase
  pub flags : In after s'
  pub mutex : s'.monitor_mutex + inside p' ≡ s.monitor_mutex + inside p
  pub right : wrong after p' ≡ 0
  pub alone : inside p ≡ 0 → after ≡ ph
  pub leaves : inside p ≡ 1 → inside p' ≡ 0 → is_rest after ≡ true
  pub buffer : s'.buffer ≡ s.buffer

abbrev insert_after : InsertAt → Phase → Phase
insert_after i_increment ph = inserted
insert_after i_clear_empty ph = cleared
insert_after i_set_full ph = full
insert_after i_enter ph = ph
insert_after at ph = ph

pub insert_step-Moves :
    (s s' : Shared) (ch : ℕ) (at at' : InsertAt) (ph : Phase)
    → In ph s
    → wrong ph (insert_place at) ≡ 0
    → (0 < s.monitor_mutex → is_rest ph ≡ true)
    → insert_step s ch at ≡ some (s', at')
    → Moves s s' (insert_place at) (insert_place at') ph
unfolding insert_step wait_monitor wait_producer wait_consumer wait_cond put
insert_step-Moves s s' ch at at' ph flags right calm step = record {
  after = insert_after at ph;
  flags = record {
    at_index = ground (arith, flags.at_index);
    empty_flag = ground (arith, flags.empty_flag);
    full_flag = ground (arith, flags.full_flag);
  };
  mutex = ground arith;
  right = ground arith;
  alone = ground arith;
  leaves = ground arith;
  buffer = ground arith;
}

abbrev remove_after : RemoveAt → Phase → Phase
remove_after r_decrement ph = removed
remove_after r_clear_full ph = opened
remove_after r_set_empty ph = empty
remove_after at ph = ph

pub remove_step-Moves :
    (junk : ℕ) (s s' : Shared) (ch ch' : ℕ) (at at' : RemoveAt) (ph : Phase)
    → In ph s
    → wrong ph (remove_place at) ≡ 0
    → (0 < s.monitor_mutex → is_rest ph ≡ true)
    → remove_step junk s ch at ≡ some (s', ch', at')
    → Moves s s' (remove_place at) (remove_place at') ph
unfolding remove_step wait_monitor wait_producer wait_consumer wait_cond get
remove_step-Moves junk s s' ch ch' at at' ph flags right calm step = record {
  after = remove_after at ph;
  flags = record {
    at_index = ground (arith, flags.at_index);
    empty_flag = ground (arith, flags.empty_flag);
    full_flag = ground (arith, flags.full_flag);
  };
  mutex = ground arith;
  right = ground arith;
  alone = ground arith;
  leaves = ground arith;
  buffer = ground arith;
}
