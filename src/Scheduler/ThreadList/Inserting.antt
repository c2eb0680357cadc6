-- ===== src/Scheduler/ThreadList/Inserting.antt =====
-- pa4_1/list.c: what the insertions do to the list.
use unix_sys_prog.Common.{◌≡◌, ◌≢◌, refl, false, some, [], ◌∷◌, ◌++◌, arith, ◌∙◌, sym, subst, subst}
use unix_sys_prog.Scheduler.Memory.{Ptr, null, ListElem, State, write}
use unix_sys_prog.Scheduler.ThreadList.{
  sched_queue, pthread_mutex_unlock, list_insert_tail, list_insert_head,
}
use unix_sys_prog.Scheduler.ThreadList.Steps.{
  ==_of_ne, write_self, lock_lem, load_lem, set_next_lem, set_prev_lem,
}
use unix_sys_prog.Scheduler.ThreadList.Segment.{
  Cells, has, first, last, elem, Linked, Distinct, LastOf-cons, renewed, renewed-ne, Linked-renewed,
  Holds-ready, Distinct-snoc, ready, locked, ne_of_has, Linked-first, write-ne, Linked-append,
  last-append, Holds, Becomes,
}

module _ (s : State) (new : Ptr) (e : ListElem) (there : s.elems new ≡ some e)
    (real : new ≢ null) where
  insert_head-nil :
      Becomes
        (ready s [])
        ((new, e.info) ∷ [])
        ((new, e.info) ∷ [])
        (list_insert_head sched_queue new (ready s []))
  unfolding list_insert_head pthread_mutex_unlock
  insert_head-nil =
      let c = elem e.prev null e.info in
      let d = elem null null e.info in
      let s1 = locked (ready s []) in
      let s2 = record s1 { elems = write s.elems new (some c) } in
      let s3 = record s2 { elems = renewed s.elems new c d } in
      record {
        elems = renewed s.elems new c d;
        queue = record { head = new; tail = new; lock = false };
        returns =
            rw
              (
                ==_of_ne real,
                lock_lem (ready s []) refl,
                set_next_lem s1 real there,
                set_prev_lem s2 real (write_self s.elems new (some c)),
                load_lem s3 real (write_self (write s.elems new (some c)) new (some d)),
              )
              refl;
        holds = record {
          head = refl;
          tail = refl;
          lock = refl;
          linked = (real, write_self _ new _, tt);
          distinct = (refl, tt);
        };
        same = λ q out. renewed-ne s.elems new c d q (ground arith);
      }

  insert_tail-nil :
      Becomes
        (ready s [])
        ((new, e.info) ∷ [])
        ((new, e.info) ∷ [])
        (list_insert_tail sched_queue new (ready s []))
  unfolding list_insert_tail pthread_mutex_unlock
  insert_tail-nil =
      let c = elem null e.next e.info in
      let d = elem null null e.info in
      let s1 = locked (ready s []) in
      let s2 = record s1 { elems = write s.elems new (some c) } in
      let s3 = record s2 { elems = renewed s.elems new c d } in
      record {
        elems = renewed s.elems new c d;
        queue = record { head = new; tail = new; lock = false };
        returns =
            rw
              (
                ==_of_ne real,
                lock_lem (ready s []) refl,
                set_prev_lem s1 real there,
                set_next_lem s2 real (write_self s.elems new (some c)),
                load_lem s3 real (write_self (write s.elems new (some c)) new (some d)),
              )
              refl;
        holds = record {
          head = refl;
          tail = refl;
          lock = refl;
          linked = (real, write_self _ new _, tt);
          distinct = (refl, tt);
        };
        same = λ q out. renewed-ne s.elems new c d q (ground arith);
      }

  module _ (p i : Ptr) (xs : Cells) (fresh : has new ((p, i) ∷ xs) ≡ false)
      (linked : Linked s.elems null ((p, i) ∷ xs) null) (distinct : Distinct ((p, i) ∷ xs)) where
    insert_head-cons :
        Becomes
          (ready s ((p, i) ∷ xs))
          ((new, e.info) ∷ (p, i) ∷ xs)
          ((new, e.info) ∷ (p, i) ∷ xs)
          (list_insert_head sched_queue new (ready s ((p, i) ∷ xs)))
    unfolding list_insert_head pthread_mutex_unlock
    insert_head-cons =
        let ys = (p, i) ∷ xs in
        let c = elem e.prev p e.info in
        let d = elem null p e.info in
        let s1 = locked (ready s ys) in
        let s2 = record s1 { elems = write s.elems new (some c) } in
        let s3 = record s2 { elems = renewed s.elems new c d } in
        let end = LastOf-cons s.elems null null p i xs linked distinct in
        let hl = renewed-ne s.elems new c d p (ground arith) ∙ linked.1 in
        record {
          elems = write (renewed s.elems new c d) p (some (elem new (first xs null) i));
          queue = record { head = new; tail = last ys null; lock = false };
          returns =
              rw
                (
                  ==_of_ne real,
                  lock_lem (ready s ys) refl,
                  set_next_lem s1 real there,
                  set_prev_lem s2 real (write_self s.elems new (some c)),
                  load_lem s3 real (write_self (write s.elems new (some c)) new (some d)),
                  ==_of_ne linked.0,
                  set_prev_lem s3 linked.0 hl,
                  ==_of_ne end.ne_null,
                )
                refl;
          holds = record {
            head = refl;
            tail = refl;
            lock = refl;
            linked = (
              real,
              write-ne (renewed s.elems new c d) new p _ (ground arith) ∙ write_self _ new _,
              Linked-first (renewed s.elems new c d) null null new p i xs
                  (Linked-renewed s.elems new c d null ys null fresh linked) distinct.0,
            );
            distinct = (fresh, distinct);
          };
          same = λ q out.
              write-ne (renewed s.elems new c d) q p _ (ground arith)
              ∙ renewed-ne s.elems new c d q (ground arith);
        }

    insert_tail-cons :
        Becomes
          (ready s ((p, i) ∷ xs))
          ((new, e.info) ∷ (p, i) ∷ xs)
          ((p, i) ∷ xs ++ (new, e.info) ∷ [])
          (list_insert_tail sched_queue new (ready s ((p, i) ∷ xs)))
    unfolding list_insert_tail pthread_mutex_unlock
    insert_tail-cons =
        let ys = (p, i) ∷ xs in
        let l = last ys null in
        let c = elem l e.next e.info in
        let d = elem l null e.info in
        let s1 = locked (ready s ys) in
        let s2 = record s1 { elems = write s.elems new (some c) } in
        let s3 = record s2 { elems = renewed s.elems new c d } in
        let end =
          LastOf-cons (renewed s.elems new c d) null null p i xs
            (Linked-renewed s.elems new c d null ys null fresh linked) distinct in
        let nl = ne_of_has new l ys fresh end.here in
        record {
          elems = write (renewed s.elems new c d) l (some (record end.cell { next = new }));
          queue = record { head = p; tail = new; lock = false };
          returns =
              rw
                (
                  ==_of_ne real,
                  lock_lem (ready s ys) refl,
                  set_prev_lem s1 real there,
                  set_next_lem s2 real (write_self s.elems new (some c)),
                  load_lem s3 real (write_self (write s.elems new (some c)) new (some d)),
                  ==_of_ne end.ne_null,
                  set_next_lem s3 end.ne_null end.holds,
                  ==_of_ne linked.0,
                )
                refl;
          holds = record {
            head = refl;
            tail = sym (last-append ys ((new, e.info) ∷ []) null);
            lock = refl;
            linked =
                Linked-append _ null null ys ((new, e.info) ∷ []) (end.relink new)
                  (real, write-ne (renewed s.elems new c d) new l _ nl ∙ write_self _ new _, tt);
            distinct = Distinct-snoc ys new e.info distinct fresh;
          };
          same = λ q out.
              write-ne (renewed s.elems new c d) q l _ (ne_of_has q _ ys (ground arith) end.here)
              ∙ renewed-ne s.elems new c d q (ground arith);
        }

-- An element of the heap that is not in the list becomes the first.
pub list_insert_head_lem :
    (s : State) (new : Ptr) (e : ListElem) (xs : Cells)
    → Holds s xs
    → s.elems new ≡ some e
    → new ≢ null
    → has new xs ≡ false
    → Becomes s ((new, e.info) ∷ xs) ((new, e.info) ∷ xs) (list_insert_head sched_queue new s)
list_insert_head_lem s new e [] held there real fresh =
    subst
      (λ t.
        Becomes t ((new, e.info) ∷ []) ((new, e.info) ∷ []) (list_insert_head sched_queue new t))
      (Holds-ready held) (insert_head-nil s new e there real)
list_insert_head_lem s new e ((p, i) ∷ xs) held there real fresh =
    subst
      (λ t.
        Becomes t ((new, e.info) ∷ (p, i) ∷ xs) ((new, e.info) ∷ (p, i) ∷ xs)
          (list_insert_head sched_queue new t))
      (Holds-ready held)
      (insert_head-cons s new e there real p i xs fresh held.linked held.distinct)

-- Or it becomes the last.
pub list_insert_tail_lem :
    (s : State) (new : Ptr) (e : ListElem) (xs : Cells)
    → Holds s xs
    → s.elems new ≡ some e
    → new ≢ null
    → has new xs ≡ false
    → Becomes s ((new, e.info) ∷ xs) (xs ++ (new, e.info) ∷ []) (list_insert_tail sched_queue new s)
list_insert_tail_lem s new e [] held there real fresh =
    subst
      (λ t.
        Becomes t ((new, e.info) ∷ []) ((new, e.info) ∷ []) (list_insert_tail sched_queue new t))
      (Holds-ready held) (insert_tail-nil s new e there real)
list_insert_tail_lem s new e ((p, i) ∷ xs) held there real fresh =
    subst
      (λ t.
        Becomes t ((new, e.info) ∷ (p, i) ∷ xs) ((p, i) ∷ xs ++ (new, e.info) ∷ [])
          (list_insert_tail sched_queue new t))
      (Holds-ready held)
      (insert_tail-cons s new e there real p i xs fresh held.linked held.distinct)
