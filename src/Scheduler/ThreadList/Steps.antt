-- ===== src/Scheduler/ThreadList/Steps.antt =====
-- pa4_1/list.c: the statements of its functions where they succeed, one equation each.
use unix_sys_prog.Common.{ℕ, ◌≡◌, ◌≢◌, refl, true, false, Option, some, arith, ◌==◌}
use unix_sys_prog.Scheduler.Memory.{Ptr, null, ListElem, State, write, load_elem}
use unix_sys_prog.Scheduler.ThreadList.{pthread_mutex_lock, set_next, set_prev}

pub ==_of_ne : {p q : ℕ} → p ≢ q → (p == q) ≡ false
==_of_ne ne = ground arith

pub ==_self : (p : ℕ) → (p == p) ≡ true
==_self p = ground arith

pub ==_flip : (p q : ℕ) → (p == q) ≡ false → (q == p) ≡ false
==_flip p q ne = ground arith

pub write_self : {A : Type 0} (h : Ptr → Option A) (p : Ptr) (c : Option A) → write h p c p ≡ c
unfolding write
write_self h p c = rw (==_self p) refl

module _ (s : State) where
  pub lock_lem :
      s.sched_queue.lock ≡ false
      → pthread_mutex_lock s
        ≡ some (tt, record s { sched_queue = record s.sched_queue { lock = true } })
  unfolding pthread_mutex_lock
  lock_lem free = rw free refl

  module _ {p : Ptr} {e : ListElem} (real : p ≢ null) (there : s.elems p ≡ some e) where
    pub load_lem : load_elem p s ≡ some (e, s)
    unfolding load_elem
    load_lem = rw (==_of_ne real, there) refl

    pub set_next_lem :
        (q : Ptr)
        → set_next p q s
          ≡ some (tt, record s { elems = write s.elems p (some (record e { next = q })) })
    unfolding set_next
    set_next_lem q = rw (load_lem) refl

    pub set_prev_lem :
        (q : Ptr)
        → set_prev p q s
          ≡ some (tt, record s { elems = write s.elems p (some (record e { prev = q })) })
    unfolding set_prev
    set_prev_lem q = rw (load_lem) refl
