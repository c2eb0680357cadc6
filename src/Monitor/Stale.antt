-- ===== src/Monitor/Stale.antt =====
-- pa2_2/proc_con: what the consumers get.
use unix_sys_prog.Paging.Count.{ℕ-split}
use unix_sys_prog.Common.{
  ℕ, ◌<◌, ◌≡◌, refl, sym, ap, ◌∙◌, Bool, true, false, some, List, ◌∷◌, arith, length, get_or, set,
  replicate, length-set, get_or-set_self, get_or-set_ne, get_or-replicate, length-replicate, subst,
  inl, inr,
}
use unix_sys_prog.Common.Sum.{sum-get_or}
use unix_sys_prog.Monitor.{Shared}
use unix_sys_prog.Monitor.Steps.{get, wait_monitor, wait_producer, wait_consumer, wait_cond}
use unix_sys_prog.Monitor.Remove.{
  RemoveAt, r_enter, r_guard, r_test, r_unguard_blocked, r_leave_blocked, r_blocked, r_unguard,
  r_read, r_return, remove_step,
}
use unix_sys_prog.Monitor.Phase.{Phase, remove_place, wrong}
use unix_sys_prog.Monitor.System.{
  Consumer, System, consumer_step, no_consumer, Step, producer_moves, consumer_moves, main_moves,
  start, Reachable, here, later,
}
use unix_sys_prog.Monitor.Safety.{Sound, Reachable-Sound, reading-phase}

-- Whether the call has read the buffer.
abbrev has_read : RemoveAt → Bool
has_read r_enter = false
has_read r_guard = false
has_read r_test = false
has_read r_unguard_blocked = false
has_read r_leave_blocked = false
has_read r_blocked = false
has_read r_unguard = false
has_read r_read = false
has_read at = true

-- All that the calls have read is `v`.
record Read (v : ℕ) (c : Consumer) : Type 0 where
  pub now : has_read c.at ≡ true → c.ch ≡ v
  pub before : c.returned ≡ replicate (length c.returned) v

remove_step-reads :
    (junk v : ℕ) (s s' : Shared) (ch ch' : ℕ) (at at' : RemoveAt)
    → (at ≡ r_read → get junk s.buffer s.buffer_index ≡ v)
    → (has_read at ≡ true → ch ≡ v)
    → remove_step junk s ch at ≡ some (s', ch', at')
    → has_read at' ≡ true
    → ch' ≡ v
unfolding remove_step wait_monitor wait_producer wait_consumer wait_cond
remove_step-reads junk v s s' ch ch' r_read at' reads now step is = ground (arith, reads refl)
remove_step-reads junk v s s' ch ch' at at' reads now step is = ground arith

consumer_step-Read :
    (junk v : ℕ) (s s' : Shared) (ch ch' : ℕ) (at at' : RemoveAt) (returned returned' : List ℕ)
    → (at ≡ r_read → get junk s.buffer s.buffer_index ≡ v)
    → Read v (record { at = at; ch = ch; returned = returned })
    → consumer_step junk s (record { at = at; ch = ch; returned = returned })
      ≡ some (s', record { at = at'; ch = ch'; returned = returned' })
    → Read v (record { at = at'; ch = ch'; returned = returned' })
unfolding consumer_step remove_step
consumer_step-Read junk v s s' ch ch' r_return at' returned returned' reads r step = record {
  now = ground arith;
  before =
      let e : returned' ≡ ch ∷ returned = ground arith in
      subst (λ xs. xs ≡ replicate (length xs) v) (sym e) (cc (r.now refl, r.before));
}
consumer_step-Read junk v s s' ch ch' at at' returned returned' reads r step = record {
  now = remove_step-reads junk v s s' ch ch' at at' reads r.now (ground arith);
  before =
      let e : returned' ≡ returned = ground arith in
      subst (λ xs. xs ≡ replicate (length xs) v) (sym e) r.before;
}

-- Each consumer has read nothing but `v`.
AllRead : ℕ → System → Type 0
AllRead v s = (i : ℕ) → i < length s.consumers → Read v (get_or s.consumers i no_consumer)

Step-AllRead :
    (junk : ℕ) (buffer : List ℕ) (s s' : System) (ph : Phase)
    → Sound buffer s ph
    → AllRead (get_or buffer 0 junk) s
    → Step junk s s'
    → AllRead (get_or buffer 0 junk) s'
unfolding AllRead get
Step-AllRead junk buffer _ s' ph b all (producer_moves s i shared p lt e) = all
Step-AllRead junk buffer _ s' ph b all (main_moves s shared m e) = all
Step-AllRead junk buffer _ s' ph b all (consumer_moves s i shared c lt e) =
    let q = get_or s.consumers i no_consumer in
    let r =
      consumer_step-Read junk (get_or buffer 0 junk) s.shared shared q.ch c.ch q.at c.at q.returned
        c.returned
        (λ at.
          rw
            (
              b.flags.at_index
                  ∙ reading-phase ph (
                      omega (
                        arith,
                        b.right,
                        ap (λ a. wrong ph (remove_place a)) at,
                        sum-get_or (λ (c : Consumer). wrong ph (remove_place c.at)) s.consumers i
                            no_consumer lt,
                      )),
              b.kept,
            )
            refl)
        (all i lt) e in
    λ j lt'. elim (ℕ-split i j) [
      | inl same ↦
          subst (λ d. Read (get_or buffer 0 junk) d)
            (sym (get_or-set_self s.consumers i c no_consumer lt)
              ∙ ap (λ k. get_or (set s.consumers i c) k no_consumer) same)
            r
      | inr other ↦
          subst (λ d. Read (get_or buffer 0 junk) d)
            (sym (get_or-set_ne s.consumers i j c no_consumer other))
            (all j (omega (arith, lt', length-set s.consumers i c)))
    ]

start-AllRead :
    (v : ℕ) (buffer : List ℕ) (chars : List (List ℕ)) (consumers : ℕ)
    → AllRead v (start buffer chars consumers)
unfolding AllRead start
start-AllRead v buffer chars consumers i lt =
    subst (λ d. Read v d)
      (sym (
        get_or-replicate consumers i no_consumer no_consumer
          (omega (arith, lt, length-replicate consumers no_consumer))))
      (record { now = λ is. absurd (ground arith); before = refl })

Reachable-AllRead :
    (junk : ℕ) (buffer : List ℕ) (chars : List (List ℕ)) (consumers : ℕ) (s : System)
    → Reachable junk (start buffer chars consumers) s
    → AllRead (get_or buffer 0 junk) s
Reachable-AllRead junk buffer chars consumers s here =
    start-AllRead (get_or buffer 0 junk) buffer chars consumers
Reachable-AllRead junk buffer chars consumers _ (later t s before step) =
    let (ph, b) = Reachable-Sound junk buffer chars consumers t before in
    Step-AllRead junk buffer t s ph b (Reachable-AllRead junk buffer chars consumers t before) step

-- Whatever characters the producers insert, in whatever order the threads take turns: every character
-- that monitor_remove has returned to a consumer is the one that stood in the buffer at the start, if a
-- write in front of the buffer leaves the buffer as it is.
pub Reachable-stale :
    (junk : ℕ) (buffer : List ℕ) (chars : List (List ℕ)) (consumers : ℕ) (s : System)
    → Reachable junk (start buffer chars consumers) s
    → (i : ℕ) → i < length s.consumers
    → (get_or s.consumers i no_consumer).returned
      ≡ replicate (length (get_or s.consumers i no_consumer).returned) (get_or buffer 0 junk)
unfolding AllRead
Reachable-stale junk buffer chars consumers s reach i lt =
    (Reachable-AllRead junk buffer chars consumers s reach i lt).before
