-- ===== src/Scheduler/ThreadList/Refinement.antt =====
-- pa4_1/list.c as a client sees it: a sequence of elements, with no heap.
use unix_sys_prog.Common.{
  ℕ, suc, ◌<◌, ◌≡◌, ◌≢◌, refl, sym, ap, ◌∙◌, subst, Bool, true, false, Option, some, List, [], ◌∷◌,
  ◌++◌, arith, ◌==◌, length, map, Bool-cases, Option-cases, ==_iff, inl, inr, ◌⊎◌,
}
use unix_sys_prog.Common.Int.{ℤ, pos}
use unix_sys_prog.Scheduler.Memory.{Ptr, null, ListElem, State}
use unix_sys_prog.Scheduler.ThreadList.{
  sched_queue, list_insert_head, list_insert_tail, list_remove, list_size, print_list,
}
use unix_sys_prog.Scheduler.ThreadList.Segment.{
  Cells, has, first, elem, Linked, Heap, Holds, Becomes, not-has-snoc, not-has-insert,
}
use unix_sys_prog.Scheduler.ThreadList.Sequence.{
  Op, insert_head, insert_tail, remove, run_op, run_ops, contains, erase, apply, apply_all, place,
  AllOwned, contains-split,
}
use unix_sys_prog.Scheduler.ThreadList.Inserting.{list_insert_head_lem, list_insert_tail_lem}
use unix_sys_prog.Scheduler.ThreadList.Removing.{list_remove_lem}
use unix_sys_prog.Scheduler.ThreadList.Walks.{list_size_lem, print_list_lem}

module _ (info : Ptr → Ptr) where
  abbrev pub cells : List Ptr → Cells
  cells ps = map (λ p. (p, info p)) ps

  has-cells : (p : Ptr) (ps : List Ptr) → has p (cells ps) ≡ contains p ps
  unfolding contains
  has-cells p [] = refl
  has-cells p (q ∷ qs) = rw (has-cells p qs) refl

  cells-append : (ps qs : List Ptr) → cells (ps ++ qs) ≡ cells ps ++ cells qs
  cells-append [] qs = refl
  cells-append (p ∷ ps) qs = ap (λ l. (p, info p) ∷ l) (cells-append ps qs)

  Linked-info :
      (h : Heap) (q b a : Ptr) (ps : List Ptr)
      → Linked h b (cells ps) a
      → has q (cells ps) ≡ true
      → (e : ListElem) × (h q ≡ some e) × (e.info ≡ info q)
  Linked-info h q b a [] linked inside = cc
  Linked-info h q b a (p ∷ ps) linked inside = elim (Bool-cases (q == p)) [
    | inl same ↦ (
      elem b (first (cells ps) a) (info p),
      ap h ((==_iff q p).0 same) ∙ linked.1,
      ap info (sym ((==_iff q p).0 same)),
    )
    | inr ne ↦ Linked-info h q p a ps linked.2 (ground arith)
  ]

  -- The list in the state is the sequence `ps`; every place of `owned` has an element with its info.
  pub record Represents (owned : Ptr → Bool) (s : State) (ps : List Ptr) : Type 0 where
    pub holds : Holds s (cells ps)
    pub real : (p : Ptr) → owned p ≡ true → p ≢ null
    pub there :
        (p : Ptr) → owned p ≡ true → (e : ListElem) × (s.elems p ≡ some e) × (e.info ≡ info p)

  module _ (owned : Ptr → Bool) (s : State) (ps qs : List Ptr) (rep : Represents owned s ps) where
    -- A call that leaves the sequence `qs`.
    after :
        (places ys : Cells) (r : Option (ℤ × State))
        → cells qs ≡ ys
        → (b : Becomes s places ys r)
        → ((q : Ptr)
            → has q ys ≡ false
            → (has q places ≡ false) ⊎ (b.elems q ≡ some (elem null null (info q))))
        → (s' : State) × (r ≡ some (pos 0, s')) × Represents owned s' qs
    after places ys r e b others = (
      record s { elems = b.elems; sched_queue = b.queue },
      b.returns,
      record {
        holds = rw e b.holds;
        real = rep.real;
        there = λ p own. elim (Bool-cases (has p ys)) [
          | inl inside ↦ Linked-info b.elems p null null qs (rw e b.holds.linked) (rw e inside)
          | inr out ↦ elim (others p out) [
            | inl same ↦ let (c, held, i) = rep.there p own in (c, b.same p same ∙ held, i)
            | inr new ↦ (elem null null (info p), new, refl)
          ]
        ];
      },
    )

  -- What a call returns, and what the state then represents.
  abbrev pub Yields : (Ptr → Bool) → List Ptr → Option (ℤ × State) → Type 0
  Yields owned qs r = (s' : State) × (r ≡ some (pos 0, s')) × Represents owned s' qs

  module _ (owned : Ptr → Bool) (s : State) (ps : List Ptr) (rep : Represents owned s ps) (p : Ptr)
      (own : owned p ≡ true) where
    insert_head_lem :
        contains p ps ≡ false → Yields owned (p ∷ ps) (list_insert_head sched_queue p s)
    insert_head_lem out =
        let (c, held, i) = rep.there p own in
        let b =
          list_insert_head_lem s p c (cells ps) rep.holds held (rep.real p own)
            (has-cells p ps ∙ out) in
        after owned s ps (p ∷ ps) rep ((p, info p) ∷ cells ps) ((p, info p) ∷ cells ps) _ refl
          (subst
            (λ j.
              Becomes s ((p, j) ∷ cells ps) ((p, j) ∷ cells ps) (list_insert_head sched_queue p s))
            i b)
          λ q o. inl o

    insert_tail_lem :
        contains p ps ≡ false → Yields owned (ps ++ p ∷ []) (list_insert_tail sched_queue p s)
    insert_tail_lem out =
        let (c, held, i) = rep.there p own in
        let b =
          list_insert_tail_lem s p c (cells ps) rep.holds held (rep.real p own)
            (has-cells p ps ∙ out) in
        after owned s ps (ps ++ p ∷ []) rep ((p, info p) ∷ cells ps) (cells ps ++ (p, info p) ∷ [])
          _ (cells-append ps (p ∷ []))
          (subst
            (λ j.
              Becomes s ((p, j) ∷ cells ps) (cells ps ++ (p, j) ∷ [])
                (list_insert_tail sched_queue p s))
            i b)
          λ q o. inl (not-has-snoc q p (info p) (cells ps) o)

    remove_lem : contains p ps ≡ true → Yields owned (erase p ps) (list_remove sched_queue p s)
    remove_lem inside =
        let (ys, zs, e, e') = contains-split p ps inside in
        let m = cells-append ys (p ∷ zs) in
        let r = list_remove_lem s (cells ys) p (info p) (cells zs) (rw (← m, ← e) rep.holds) in
        subst (λ l. Yields owned l (list_remove sched_queue p s)) (sym e')
          (after owned s ps (ys ++ zs) rep (cells ys ++ (p, info p) ∷ cells zs)
            (cells ys ++ cells zs) _ (cells-append ys zs) r.becomes
            λ q o. elim (Bool-cases (q == p)) [
              | inl same ↦ inr (rw ((==_iff q p).0 same) r.unlinked)
              | inr ne ↦ inl (not-has-insert q p (info p) (cells ys) (cells zs) o ne)
            ])

  module _ (owned : Ptr → Bool) where
    run_op_lem :
        (op : Op) (s : State) (ps qs : List Ptr)
        → Represents owned s ps
        → owned (place op) ≡ true
        → apply op ps ≡ some qs
        → Yields owned qs (run_op op s)
    unfolding run_op apply
    run_op_lem (insert_head p) s ps qs rep own e = elim (Bool-cases (contains p ps)) [
      | inl twice ↦ absurd (ground arith)
      | inr out ↦
          subst (λ l. Yields owned l (list_insert_head sched_queue p s)) (ground arith)
            (insert_head_lem owned s ps rep p own out)
    ]
    run_op_lem (insert_tail p) s ps qs rep own e = elim (Bool-cases (contains p ps)) [
      | inl twice ↦ absurd (ground arith)
      | inr out ↦
          subst (λ l. Yields owned l (list_insert_tail sched_queue p s)) (ground arith)
            (insert_tail_lem owned s ps rep p own out)
    ]
    run_op_lem (remove p) s ps qs rep own e = elim (Bool-cases (contains p ps)) [
      | inl inside ↦
          subst (λ l. Yields owned l (list_remove sched_queue p s)) (ground arith)
            (remove_lem owned s ps rep p own inside)
      | inr out ↦ absurd (ground arith)
    ]

    run_ops_lem :
        (ops : List Op) (s : State) (ps qs : List Ptr)
        → Represents owned s ps
        → AllOwned owned ops
        → apply_all ops ps ≡ some qs
        → (s' : State) × (run_ops ops s ≡ some (tt, s')) × Represents owned s' qs
    unfolding run_ops apply_all
    run_ops_lem [] s ps qs rep own e = (s, refl, subst (Represents owned s) (ground arith) rep)
    run_ops_lem (op ∷ ops) s ps qs rep own e = elim (Option-cases (apply op ps)) [
      | inl refused ↦ absurd (ground arith)
      | inr (mid, e') ↦
          let (t, ran, rep') = run_op_lem op s ps mid rep own.0 e' in
          let (u, ran', rep'') = run_ops_lem ops t mid qs rep' own.1 (ground arith) in
          (u, rw (ran, ran') refl, rep'')
    ]

  length-cells : (ps : List Ptr) → length (cells ps) ≡ length ps
  length-cells [] = refl
  length-cells (p ∷ ps) = ap suc (length-cells ps)

  infos-cells : (ps : List Ptr) → map (λ (x : Ptr × Ptr). x.1) (cells ps) ≡ map info ps
  infos-cells [] = refl
  infos-cells (p ∷ ps) = ap (λ l. info p ∷ l) (infos-cells ps)

-- Suppose that the list in the state is the sequence `ps`, in both directions, that the calls are about
-- elements of the heap, and that each inserts an element that is not in the sequence or removes one
-- that is. Then no call fails, the list in the state is afterwards the sequence that the calls make
-- of `ps`, and its mutex is free; with fuel above its length `list_size` returns this, and
-- `print_list` writes the infos in order.
pub run_ops-refines :
    (info : Ptr → Ptr) (owned : Ptr → Bool) (ops : List Op) (s : State) (ps qs : List Ptr)
    (fuel : ℕ)
    → Represents info owned s ps
    → AllOwned owned ops
    → apply_all ops ps ≡ some qs
    → length qs < fuel
    → (s' : State) × (run_ops ops s ≡ some (tt, s'))
      × Represents info owned s' qs
      × (list_size fuel sched_queue s' ≡ some (pos (length qs), s'))
      × (print_list fuel s' ≡ some (map info qs, s'))
run_ops-refines info owned ops s ps qs fuel rep own e enough =
    let (s', ran, rep') = run_ops_lem info owned ops s ps qs rep own e in
    let enough' : length (cells info qs) < fuel = rw (length-cells info qs) enough in
    (
      s',
      ran,
      rep',
      list_size_lem s' fuel (cells info qs) rep'.holds enough'
          ∙ ap (λ n. some (pos n, s')) (length-cells info qs),
      print_list_lem s' fuel (cells info qs) rep'.holds enough'
          ∙ ap (λ l. some (l, s')) (infos-cells info qs),
    )
