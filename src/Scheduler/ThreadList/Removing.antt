-- ===== src/Scheduler/ThreadList/Removing.antt =====
-- pa4_1/list.c: what `list_remove` does to the list.
use unix_sys_prog.Common.{◌≡◌, ◌≢◌, refl, sym, subst, ◌∙◌, false, some, [], ◌∷◌, ◌++◌, ◌==◌}
use mathlib.Core.List.{append-nil}
use unix_sys_prog.Scheduler.Memory.{Ptr, null, State, write}
use unix_sys_prog.Scheduler.ThreadList.{sched_queue, pthread_mutex_unlock, list_remove}
use unix_sys_prog.Scheduler.ThreadList.Steps.{
  ==_of_ne, ==_flip, write_self, lock_lem, load_lem, set_next_lem, set_prev_lem,
}
use unix_sys_prog.Scheduler.ThreadList.Segment.{
  Cells, first, last, elem, Linked, Distinct, LastOf-cons, has_first, has_middle, Linked-first,
  Linked-write, write-ne, ne_of_has, Linked-append, Linked-split, last-append, Holds, ready, locked,
  renewed, renewed-ne, Linked-renewed, Holds-ready, not-has-append, Distinct-apart,
  Distinct-apart_left, Distinct-append, Distinct-remove,
}
use unix_sys_prog.Scheduler.ThreadList.RemovingEnds.{
  Removed, remove-only, remove-front, remove-back,
}

module _ (s : State) (p i : Ptr) (real : p ≢ null) where
  remove-middle :
      (r k : Ptr) (ys : Cells) (q j : Ptr) (zs : Cells)
      → Linked s.elems null ((r, k) ∷ ys ++ (p, i) ∷ (q, j) ∷ zs) null
      → Distinct ((r, k) ∷ ys ++ (p, i) ∷ (q, j) ∷ zs)
      → Removed
          (ready s ((r, k) ∷ ys ++ (p, i) ∷ (q, j) ∷ zs))
          ((r, k) ∷ ys ++ (p, i) ∷ (q, j) ∷ zs)
          ((r, k) ∷ ys ++ (q, j) ∷ zs)
          p
          i
          (list_remove sched_queue p (ready s ((r, k) ∷ ys ++ (p, i) ∷ (q, j) ∷ zs)))
  unfolding list_remove pthread_mutex_unlock
  remove-middle r k ys q j zs linked distinct =
      let front = (r, k) ∷ ys in
      let back = (q, j) ∷ zs in
      let xs = front ++ (p, i) ∷ back in
      let l = last front null in
      let link = Linked-split s.elems null null front ((p, i) ∷ back) linked in
      let (apart, out) = Distinct-remove front p i back distinct in
      let (alone, alone') = Distinct-append front back apart in
      let (fresh, fresh') = not-has-append p front back out in
      let h1 = write s.elems q (some (elem l (first zs null) j)) in
      let qfront = Distinct-apart_left front back q apart (has_first q j zs) in
      let end =
        LastOf-cons h1 null p r k ys (Linked-write s.elems null p q _ front qfront link.0) alone in
      let end' = LastOf-cons s.elems p null q j zs link.1.2 alone' in
      let pl = ne_of_has p l front fresh end.here in
      let pq = ne_of_has p q back fresh' (has_first q j zs) in
      let lback = Distinct-apart front back l apart end.here in
      let h2 = write h1 l (some (record end.cell { next = q })) in
      let s1 = locked (ready s xs) in
      let s2 = record s1 { elems = h1 } in
      let s3 = record s2 { elems = h2 } in
      let s4 = record s3 { elems = write h2 p (some (elem null q i)) } in
      let there1 = write-ne s.elems p q (some (elem l (first zs null) j)) pq ∙ link.1.1 in
      let there2 = write-ne h1 p l (some (record end.cell { next = q })) pl ∙ there1 in
      let ld = load_lem s1 real link.1.1 in
      let ld1 = load_lem s2 real there1 in
      let ld2 = load_lem s3 real there2 in
      let tp : (last xs null == p) ≡ false =
        rw (last-append front ((p, i) ∷ back) null)
          (==_flip _ _ (ne_of_has p (last zs q) back fresh' end'.here)) in
      let hp = ==_flip _ _ (ne_of_has p r front fresh (has_first r k ys)) in
      record {
        becomes = record {
          elems = renewed h2 p (elem null q i) (elem null null i);
          queue = record { head = r; tail = last xs null; lock = false };
          returns =
              rw
                (
                  ==_of_ne real,
                  lock_lem (ready s xs) refl,
                  ld,
                  ==_of_ne link.1.2.0,
                  set_prev_lem s1 link.1.2.0 link.1.2.1,
                  ld1,
                  ==_of_ne end.ne_null,
                  set_next_lem s2 end.ne_null end.holds,
                  ld2,
                  tp,
                  hp,
                  set_prev_lem s3 real there2,
                  set_next_lem s4 real (write_self h2 p (some (elem null q i))),
                )
                refl;
          holds = record {
            head = refl;
            tail = last-append front ((p, i) ∷ back) null ∙ sym (last-append front back null);
            lock = refl;
            linked = Linked-renewed h2 p _ _ null (front ++ back) null out (
                Linked-append h2 null null front back (end.relink q) (
                  Linked-write h1 l null l _ back lback
                    (Linked-first s.elems p null l q j zs link.1.2 alone'.0)));
            distinct = apart;
          };
          same = λ a o.
              renewed-ne h2 p _ _ a (ne_of_has a p xs o (has_middle p i front back))
              ∙ (write-ne h1 a l _
                    (ne_of_has a l front (not-has-append a front ((p, i) ∷ back) o).0 end.here)
                  ∙ write-ne s.elems a q _ (
                      ne_of_has a q back
                        (not-has-append a ((p, i) ∷ []) back
                          (not-has-append a front ((p, i) ∷ back) o).1).1
                        (has_first q j zs)));
        };
        unlinked = write_self _ p _;
      }

-- The element `p` of the list is taken out of it, wherever it stands.
pub list_remove_lem :
    (s : State) (ys : Cells) (p i : Ptr) (zs : Cells)
    → Holds s (ys ++ (p, i) ∷ zs)
    → Removed s (ys ++ (p, i) ∷ zs) (ys ++ zs) p i (list_remove sched_queue p s)
list_remove_lem s [] p i [] held =
    subst (λ t. Removed t ((p, i) ∷ []) [] p i (list_remove sched_queue p t)) (Holds-ready held)
      (remove-only s p i held.linked.0 held.linked.1)
list_remove_lem s [] p i ((q, j) ∷ zs) held =
    subst (λ t. Removed t ((p, i) ∷ (q, j) ∷ zs) ((q, j) ∷ zs) p i (list_remove sched_queue p t))
      (Holds-ready held) (remove-front s p i held.linked.0 q j zs held.linked held.distinct)
list_remove_lem s ((r, k) ∷ ys) p i [] held =
    subst
      (λ t.
        Removed t ((r, k) ∷ ys ++ (p, i) ∷ []) ((r, k) ∷ ys ++ []) p i
          (list_remove sched_queue p t))
      (Holds-ready held)
      (rw (append-nil ((r, k) ∷ ys)) (
        remove-back s p i
          (Linked-split s.elems null null ((r, k) ∷ ys) ((p, i) ∷ []) held.linked).1.0 r k ys
          held.linked held.distinct))
list_remove_lem s ((r, k) ∷ ys) p i ((q, j) ∷ zs) held =
    subst
      (λ t.
        Removed t ((r, k) ∷ ys ++ (p, i) ∷ (q, j) ∷ zs) ((r, k) ∷ ys ++ (q, j) ∷ zs) p i
          (list_remove sched_queue p t))
      (Holds-ready held)
      (remove-middle s p i
        (Linked-split s.elems null null ((r, k) ∷ ys) ((p, i) ∷ (q, j) ∷ zs) held.linked).1.0 r k ys
        q j zs held.linked held.distinct)
