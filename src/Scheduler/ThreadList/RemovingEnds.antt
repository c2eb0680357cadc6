-- ===== src/Scheduler/ThreadList/RemovingEnds.antt =====
-- pa4_1/list.c: what `list_remove` does to an element at the head or the tail of the list.
use unix_sys_prog.Common.{
  ◌≡◌, ◌≢◌, refl, ◌∙◌, true, false, Option, some, [], ◌∷◌, ◌++◌, arith, ◌==◌,
}
use unix_sys_prog.Common.Int.{ℤ}
use unix_sys_prog.Scheduler.Memory.{Ptr, null, State, write}
use unix_sys_prog.Scheduler.ThreadList.{sched_queue, pthread_mutex_unlock, list_remove}
use unix_sys_prog.Scheduler.ThreadList.Steps.{
  ==_of_ne, ==_self, ==_flip, write_self, lock_lem, load_lem, set_next_lem, set_prev_lem,
}
use unix_sys_prog.Scheduler.ThreadList.Segment.{
  Cells, first, last, elem, Linked, Distinct, LastOf-cons, has_first, has_middle, Linked-first,
  write-ne, ne_of_has, Linked-split, last-append, Becomes, ready, locked, renewed, renewed-ne,
  Linked-renewed, not-has-append, Distinct-append, Distinct-remove,
}

-- What `list_remove` does: the list loses the element `p`, which keeps its info and no links.
pub record Removed (s : State) (xs ys : Cells) (p i : Ptr) (r : Option (ℤ × State)) : Type 0 where
  pub becomes : Becomes s xs ys r
  pub unlinked : becomes.elems p ≡ some (elem null null i)

module _ (s : State) (p i : Ptr) (real : p ≢ null) where
  pub remove-only :
      s.elems p ≡ some (elem null null i)
      → Removed
          (ready s ((p, i) ∷ []))
          ((p, i) ∷ [])
          []
          p
          i
          (list_remove sched_queue p (ready s ((p, i) ∷ [])))
  unfolding list_remove pthread_mutex_unlock
  remove-only there =
      let c = elem null null i in
      let s1 = locked (ready s ((p, i) ∷ [])) in
      let s2 = record s1 { sched_queue = record { head = null; tail = null; lock = true } } in
      let s3 = record s2 { elems = write s.elems p (some c) } in
      let ld = load_lem s1 real there in
      record {
        becomes = record {
          elems = renewed s.elems p c c;
          queue = record { head = null; tail = null; lock = false };
          returns =
              rw
                (
                  ==_of_ne real,
                  lock_lem (ready s ((p, i) ∷ [])) refl,
                  ld,
                  ld,
                  ld,
                  ==_self p,
                  ==_self p,
                  set_prev_lem s2 real there,
                  set_next_lem s3 real (write_self s.elems p (some c)),
                )
                refl;
          holds = record { head = refl; tail = refl; lock = refl; linked = tt; distinct = tt };
          same = λ q out. renewed-ne s.elems p c c q (ground arith);
        };
        unlinked = write_self _ p _;
      }

  pub remove-front :
      (q j : Ptr) (zs : Cells)
      → Linked s.elems null ((p, i) ∷ (q, j) ∷ zs) null
      → Distinct ((p, i) ∷ (q, j) ∷ zs)
      → Removed
          (ready s ((p, i) ∷ (q, j) ∷ zs))
          ((p, i) ∷ (q, j) ∷ zs)
          ((q, j) ∷ zs)
          p
          i
          (list_remove sched_queue p (ready s ((p, i) ∷ (q, j) ∷ zs)))
  unfolding list_remove pthread_mutex_unlock
  remove-front q j zs linked distinct =
      let xs = (p, i) ∷ (q, j) ∷ zs in
      let e = elem null q i in
      let h1 = write s.elems q (some (elem null (first zs null) j)) in
      let s1 = locked (ready s xs) in
      let s2 = record s1 { elems = h1 } in
      let s3 = record s2 { sched_queue = record { head = q; tail = last zs q; lock = true } } in
      let s4 = record s3 { elems = write h1 p (some e) } in
      let pq : (p == q) ≡ false = ground arith in
      let qp : (q == p) ≡ false = ground arith in
      let end = LastOf-cons s.elems p null q j zs linked.2 distinct.1 in
      let there = write-ne s.elems p q (some (elem null (first zs null) j)) pq ∙ linked.1 in
      let tp : (last zs q == p) ≡ false =
        ==_flip _ _ (ne_of_has p (last zs q) ((q, j) ∷ zs) distinct.0 end.here) in
      let ld = load_lem s2 real there in
      record {
        becomes = record {
          elems = renewed h1 p e (elem null null i);
          queue = record { head = q; tail = last zs q; lock = false };
          returns =
              rw
                (
                  ==_of_ne real,
                  lock_lem (ready s xs) refl,
                  load_lem s1 real linked.1,
                  ==_of_ne linked.2.0,
                  set_prev_lem s1 linked.2.0 linked.2.1,
                  ld,
                  ld,
                  tp,
                  ==_self p,
                  set_prev_lem s3 real there,
                  set_next_lem s4 real (write_self h1 p (some e)),
                )
                refl;
          holds = record {
            head = refl;
            tail = refl;
            lock = refl;
            linked =
                Linked-renewed h1 p e (elem null null i) null ((q, j) ∷ zs) null distinct.0
                  (Linked-first s.elems p null null q j zs linked.2 distinct.1.0);
            distinct = distinct.1;
          };
          same = λ a out.
              renewed-ne h1 p e (elem null null i) a (ground arith)
              ∙ write-ne s.elems a q _ (ground arith);
        };
        unlinked = write_self _ p _;
      }

  pub remove-back :
      (r k : Ptr) (ys : Cells)
      → Linked s.elems null ((r, k) ∷ ys ++ (p, i) ∷ []) null
      → Distinct ((r, k) ∷ ys ++ (p, i) ∷ [])
      → Removed
          (ready s ((r, k) ∷ ys ++ (p, i) ∷ []))
          ((r, k) ∷ ys ++ (p, i) ∷ [])
          ((r, k) ∷ ys)
          p
          i
          (list_remove sched_queue p (ready s ((r, k) ∷ ys ++ (p, i) ∷ [])))
  unfolding list_remove pthread_mutex_unlock
  remove-back r k ys linked distinct =
      let front = (r, k) ∷ ys in
      let xs = front ++ (p, i) ∷ [] in
      let l = last front null in
      let e = elem l null i in
      let link = Linked-split s.elems null null front ((p, i) ∷ []) linked in
      let (apart, out) = Distinct-remove front p i [] distinct in
      let alone = (Distinct-append front ((p, i) ∷ []) distinct).0 in
      let fresh = (not-has-append p front [] out).0 in
      let end = LastOf-cons s.elems null p r k ys link.0 alone in
      let h1 = write s.elems l (some (record end.cell { next = null })) in
      let s1 = locked (ready s xs) in
      let s2 = record s1 { elems = h1 } in
      let s3 = record s2 { sched_queue = record { head = r; tail = l; lock = true } } in
      let s4 = record s3 { elems = write h1 p (some (elem null null i)) } in
      let pl : (p == l) ≡ false = ne_of_has p l front fresh end.here in
      let ld = load_lem s1 real link.1.1 in
      let there = write-ne s.elems p l (some (record end.cell { next = null })) pl ∙ link.1.1 in
      let ld2 = load_lem s2 real there in
      let tp : (last xs null == p) ≡ true = rw (last-append front ((p, i) ∷ []) null) (==_self p) in
      let hp = ==_flip _ _ (ne_of_has p r front fresh (has_first r k ys)) in
      record {
        becomes = record {
          elems = renewed h1 p (elem null null i) (elem null null i);
          queue = record { head = r; tail = l; lock = false };
          returns =
              rw
                (
                  ==_of_ne real,
                  lock_lem (ready s xs) refl,
                  ld,
                  ld,
                  ==_of_ne end.ne_null,
                  set_next_lem s1 end.ne_null end.holds,
                  ld2,
                  tp,
                  hp,
                  set_prev_lem s3 real there,
                  set_next_lem s4 real (write_self h1 p (some (elem null null i))),
                )
                refl;
          holds = record {
            head = refl;
            tail = refl;
            lock = refl;
            linked = Linked-renewed h1 p _ _ null front null fresh (end.relink null);
            distinct = alone;
          };
          same = λ a o.
              renewed-ne h1 p _ _ a (ne_of_has a p xs o (has_middle p i front []))
              ∙ write-ne s.elems a l _
                  (ne_of_has a l front (not-has-append a front ((p, i) ∷ []) o).0 end.here);
        };
        unlinked = write_self _ p _;
      }
