-- ===== src/Scheduler/ThreadList/Segment.antt =====
-- pa4_1/list.c: doubly linked segments of the heap, and how writes change them.
use unix_sys_prog.Common.{
  ◌≡◌, ◌≢◌, refl, Bool, true, false, ◌||◌, Option, some, List, [], ◌∷◌, ◌++◌, arith, ◌==◌,
  Bool-cases, ==_iff, inl, inr, ◌∙◌,
}
use unix_sys_prog.Common.Int.{ℤ, pos}
use unix_sys_prog.Scheduler.Memory.{Ptr, null, ListElem, ThreadInfoList, State, write}

-- The places and the infos of the elements, in order.
abbrev pub Cells : Type 0
Cells = List (Ptr × Ptr)

abbrev pub has : Ptr → Cells → Bool
has a [] = false
has a ((p, _) ∷ xs) = (a == p) || has a xs

-- The first place, and the last, with a default for the empty list.
abbrev pub first : Cells → Ptr → Ptr
first [] q = q
first ((p, _) ∷ xs) q = p

abbrev pub last : Cells → Ptr → Ptr
last [] q = q
last ((p, _) ∷ xs) q = last xs p

abbrev pub Heap : Type 0
Heap = Ptr → Option ListElem

abbrev pub elem : Ptr → Ptr → Ptr → ListElem
elem b a i = record { prev = b; next = a; info = i }

-- The elements `xs` are linked in both directions, between `before` and `after`.
abbrev pub Linked : Heap → Ptr → Cells → Ptr → Type 0
Linked h before [] after = Unit
Linked h before ((p, i) ∷ xs) after =
    (p ≢ null) × (h p ≡ some (elem before (first xs after) i)) × Linked h p xs after

-- No place stands twice in the list.
abbrev pub Distinct : Cells → Type 0
Distinct [] = Unit
Distinct ((p, i) ∷ xs) = (has p xs ≡ false) × Distinct xs

pub has-append : (a : Ptr) (xs ys : Cells) → has a (xs ++ ys) ≡ (has a xs || has a ys)
has-append a [] ys = refl
has-append a (x ∷ xs) ys = ground (arith, has-append a xs ys)

pub first-append : (xs ys : Cells) (q : Ptr) → first (xs ++ ys) q ≡ first xs (first ys q)
first-append [] ys q = refl
first-append (x ∷ xs) ys q = refl

pub last-append : (xs ys : Cells) (q : Ptr) → last (xs ++ ys) q ≡ last ys (last xs q)
last-append [] ys q = refl
last-append ((p, i) ∷ xs) ys q = last-append xs ys p

pub Linked-append :
    (h : Heap) (b a : Ptr) (xs ys : Cells)
    → Linked h b xs (first ys a)
    → Linked h (last xs b) ys a
    → Linked h b (xs ++ ys) a
Linked-append h b a [] ys s t = t
Linked-append h b a ((p, i) ∷ xs) ys s t =
    (s.0, rw (first-append xs ys a) s.1, Linked-append h p a xs ys s.2 t)

pub Linked-split :
    (h : Heap) (b a : Ptr) (xs ys : Cells)
    → Linked h b (xs ++ ys) a
    → Linked h b xs (first ys a) × Linked h (last xs b) ys a
Linked-split h b a [] ys s = (tt, s)
Linked-split h b a ((p, i) ∷ xs) ys s =
    let (front, back) = Linked-split h p a xs ys s.2 in
    ((s.0, rw (← first-append xs ys a) s.1, front), back)

-- A write elsewhere leaves the links alone.
pub Linked-write :
    (h : Heap) (b a q : Ptr) (c : Option ListElem) (xs : Cells)
    → has q xs ≡ false
    → Linked h b xs a
    → Linked (write h q c) b xs a
unfolding write
Linked-write h b a q c [] out s = tt
Linked-write h b a q c ((p, i) ∷ xs) out s =
    (s.0, ground arith, Linked-write h p a q c xs (ground arith) s.2)

pub Distinct-snoc :
    (xs : Cells) (p i : Ptr) → Distinct xs → has p xs ≡ false → Distinct (xs ++ (p, i) ∷ [])
Distinct-snoc [] p i d out = (refl, tt)
Distinct-snoc ((q, j) ∷ xs) p i d out =
    (has-append q xs ((p, i) ∷ []) ∙ ground (arith, d.0), Distinct-snoc xs p i d.1 (ground arith))

pub not-has-append :
    (a : Ptr) (xs ys : Cells) → has a (xs ++ ys) ≡ false → (has a xs ≡ false) × (has a ys ≡ false)
not-has-append a xs ys out = ground (arith, has-append a xs ys)

pub not-has-snoc :
    (a p i : Ptr) (xs : Cells) → has a (xs ++ (p, i) ∷ []) ≡ false → has a ((p, i) ∷ xs) ≡ false
not-has-snoc a p i xs out = ground (arith, not-has-append a xs ((p, i) ∷ []))

pub not-has-insert :
    (a p i : Ptr) (xs ys : Cells)
    → has a (xs ++ ys) ≡ false
    → (a == p) ≡ false
    → has a (xs ++ (p, i) ∷ ys) ≡ false
not-has-insert a p i [] ys out ne = ground arith
not-has-insert a p i (x ∷ xs) ys out ne = ground (arith, not-has-insert a p i xs ys)

pub has_first : (p i : Ptr) (xs : Cells) → has p ((p, i) ∷ xs) ≡ true
has_first p i xs = ground arith

pub has_middle : (p i : Ptr) (xs ys : Cells) → has p (xs ++ (p, i) ∷ ys) ≡ true
has_middle p i [] ys = has_first p i ys
has_middle p i (x ∷ xs) ys = ground (arith, has_middle p i xs ys)

pub Distinct-apart :
    (xs ys : Cells) (a : Ptr) → Distinct (xs ++ ys) → has a xs ≡ true → has a ys ≡ false
Distinct-apart [] ys a d inside = cc
Distinct-apart ((p, i) ∷ xs) ys a d inside = elim (Bool-cases (a == p)) [
  | inl same ↦ rw ((==_iff a p).0 same) (not-has-append p xs ys d.0).1
  | inr ne ↦ Distinct-apart xs ys a d.1 (ground arith)
]

pub Distinct-apart_left :
    (xs ys : Cells) (a : Ptr) → Distinct (xs ++ ys) → has a ys ≡ true → has a xs ≡ false
Distinct-apart_left xs ys a d inside = elim (Bool-cases (has a xs)) [
  | inl twice ↦ absurd (cc (Distinct-apart xs ys a d twice))
  | inr out ↦ out
]

pub Distinct-append : (xs ys : Cells) → Distinct (xs ++ ys) → Distinct xs × Distinct ys
Distinct-append [] ys d = (tt, d)
Distinct-append ((p, i) ∷ xs) ys d =
    let (front, back) = Distinct-append xs ys d.1 in (((not-has-append p xs ys d.0).0, front), back)

-- Taking an element out leaves the others apart.
pub Distinct-remove :
    (xs : Cells) (p i : Ptr) (ys : Cells)
    → Distinct (xs ++ (p, i) ∷ ys)
    → Distinct (xs ++ ys) × (has p (xs ++ ys) ≡ false)
Distinct-remove [] p i ys d = (d.1, d.0)
Distinct-remove ((q, j) ∷ xs) p i ys d =
    let (rest, out) = Distinct-remove xs p i ys d.1 in
    (
      (ground (arith, has-append q xs ((p, i) ∷ ys), has-append q xs ys, d.0), rest),
      ground (arith, has-append q xs ((p, i) ∷ ys), d.0),
    )

-- A place of the list and one that is not are not the same.
pub ne_of_has : (p q : Ptr) (xs : Cells) → has p xs ≡ false → has q xs ≡ true → (p == q) ≡ false
ne_of_has p q xs out inside = elim (Bool-cases (p == q)) [
  | inl same ↦ absurd (cc ((==_iff p q).0 same))
  | inr ne ↦ ne
]

pub write-ne :
    {A : Type 0} (h : Ptr → Option A) (p q : Ptr) (c : Option A)
    → (p == q) ≡ false
    → write h q c p ≡ h p
unfolding write
write-ne h p q c ne = rw ne

-- The last element of a segment, and what becomes of the segment when its `next` is written.
pub record LastOf (h : Heap) (b : Ptr) (xs : Cells) (a : Ptr) : Type 0 where
  pub cell : ListElem
  pub holds : h (last xs b) ≡ some cell
  pub here : has (last xs b) xs ≡ true
  pub ne_null : last xs b ≢ null
  pub relink : (a' : Ptr) → Linked (write h (last xs b) (some (record cell { next = a' }))) b xs a'

pub LastOf-cons :
    (h : Heap) (b a p i : Ptr) (xs : Cells)
    → Linked h b ((p, i) ∷ xs) a
    → Distinct ((p, i) ∷ xs)
    → LastOf h b ((p, i) ∷ xs) a
unfolding write
LastOf-cons h b a p i [] s d = record {
  cell = elem b a i;
  holds = s.1;
  here = ground arith;
  ne_null = s.0;
  relink = λ a'. (s.0, ground arith, tt);
}
LastOf-cons h b a p i ((q, j) ∷ xs) s d =
    let l = LastOf-cons h p a q j xs s.2 d.1 in
    record {
      cell = l.cell;
      holds = l.holds;
      here = ground (arith, l.here);
      ne_null = l.ne_null;
      relink =
          λ a'. (s.0, write-ne h p _ _ (ne_of_has p _ ((q, j) ∷ xs) d.0 l.here) ∙ s.1, l.relink a');
    }

-- Writing the `prev` of the first element.
pub Linked-first :
    (h : Heap) (b a b' p i : Ptr) (xs : Cells)
    → Linked h b ((p, i) ∷ xs) a
    → has p xs ≡ false
    → Linked (write h p (some (elem b' (first xs a) i))) b' ((p, i) ∷ xs) a
unfolding write
Linked-first h b a b' p i xs s d =
    (s.0, ground arith, Linked-write h p a p (some (elem b' (first xs a) i)) xs d s.2)

module _ (h : Heap) (p : Ptr) (c d : ListElem) where
  -- The heap after two writes to one element.
  abbrev pub renewed : Heap
  renewed = write (write h p (some c)) p (some d)

  pub Linked-renewed :
      (b : Ptr) (xs : Cells) (a : Ptr) → has p xs ≡ false → Linked h b xs a → Linked renewed b xs a
  Linked-renewed b xs a out linked =
      Linked-write (write h p (some c)) b a p (some d) xs out
        (Linked-write h b a p (some c) xs out linked)

  pub renewed-ne : (q : Ptr) → (q == p) ≡ false → renewed q ≡ h q
  renewed-ne q ne = write-ne (write h p (some c)) q p (some d) ne ∙ write-ne h q p (some c) ne

-- The list in a state stands for `xs`: it is linked from `head` to `tail`, and its mutex is free.
pub record Holds (s : State) (xs : Cells) : Type 0 where
  pub head : s.sched_queue.head ≡ first xs null
  pub tail : s.sched_queue.tail ≡ last xs null
  pub lock : s.sched_queue.lock ≡ false
  pub linked : Linked s.elems null xs null
  pub distinct : Distinct xs

-- The operation returns 0 and leaves the list `ys`, the elements outside of `xs` and all other state
-- as they were.
pub record Becomes (s : State) (xs ys : Cells) (r : Option (ℤ × State)) : Type 0 where
  pub elems : Heap
  pub queue : ThreadInfoList
  pub returns : r ≡ some (pos 0, record s { elems = elems; sched_queue = queue })
  pub holds : Holds (record s { elems = elems; sched_queue = queue }) ys
  pub same : (q : Ptr) → has q xs ≡ false → elems q ≡ s.elems q

-- The state with the list in it that stands for `xs`, and the state in which an operation works.
abbrev pub ready : State → Cells → State
ready s xs = record s {
  sched_queue = record { head = first xs null; tail = last xs null; lock = false };
}

abbrev pub locked : State → State
locked s = record s { sched_queue = record s.sched_queue { lock = true } }

pub Holds-ready : {s : State} {xs : Cells} → Holds s xs → ready s xs ≡ s
Holds-ready {s} {xs} held = ground (arith, held.head, held.tail, held.lock)
