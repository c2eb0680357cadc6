-- ===== src/Scheduler/ThreadList/Sequence.antt =====
-- pa4_1/list.c: calls of its operations, and what they do to a sequence of elements.
use unix_sys_prog.Common.{
  ◌≡◌, refl, sym, ap, Bool, true, false, ◌||◌, Option, none, some, List, [], ◌∷◌, ◌++◌, arith, ◌==◌,
  if◌then◌else◌, Bool-cases, ==_iff, inl, inr,
}
use unix_sys_prog.Common.Int.{ℤ}
use unix_sys_prog.Scheduler.Memory.{Ptr, Run, ◌>>◌, pure}
use unix_sys_prog.Scheduler.ThreadList.{
  sched_queue, list_insert_head, list_insert_tail, list_remove,
}

-- The calls of a client.
pub data Op : Type 0 where
  insert_head insert_tail remove : Ptr → Op

unfoldable pub run_op : Op → Run ℤ
run_op (insert_head p) = list_insert_head sched_queue p
run_op (insert_tail p) = list_insert_tail sched_queue p
run_op (remove p) = list_remove sched_queue p

unfoldable pub run_ops : List Op → Run (Unit {0})
run_ops [] = pure tt
run_ops (op ∷ ops) = do run_op op; run_ops ops

unfoldable pub contains : Ptr → List Ptr → Bool
contains p [] = false
contains p (q ∷ qs) = (p == q) || contains p qs

unfoldable pub erase : Ptr → List Ptr → List Ptr
erase p [] = []
erase p (q ∷ qs) = if p == q then qs else q ∷ erase p qs

-- What a call does to the sequence: only what is not in it is inserted, only what is in it removed.
unfoldable pub apply : Op → List Ptr → Option (List Ptr)
apply (insert_head p) ps = if contains p ps then none else some (p ∷ ps)
apply (insert_tail p) ps = if contains p ps then none else some (ps ++ p ∷ [])
apply (remove p) ps = if contains p ps then some (erase p ps) else none

unfoldable pub apply_all : List Op → List Ptr → Option (List Ptr)
apply_all [] ps = some ps
apply_all (op ∷ ops) ps = elim (apply op ps) [ none ↦ none | some qs ↦ apply_all ops qs ]

abbrev pub place : Op → Ptr
place (insert_head p) = p
place (insert_tail p) = p
place (remove p) = p

-- All elements that the calls are about are owned.
abbrev pub AllOwned : (Ptr → Bool) → List Op → Type 0
AllOwned owned [] = Unit
AllOwned owned (op ∷ ops) = (owned (place op) ≡ true) × AllOwned owned ops

-- Where an element stands in the sequence, and the sequence without it.
pub contains-split :
    (p : Ptr) (ps : List Ptr)
    → contains p ps ≡ true
    → (ys zs : List Ptr) × (ps ≡ ys ++ p ∷ zs) × (erase p ps ≡ ys ++ zs)
unfolding contains erase
contains-split p [] inside = cc
contains-split p (q ∷ qs) inside = elim (Bool-cases (p == q)) [
  | inl same ↦ ([], qs, ap (λ a. a ∷ qs) (sym ((==_iff p q).0 same)), rw same refl)
  | inr ne ↦
      let (ys, zs, e, e') = contains-split p qs (ground arith) in
      (q ∷ ys, zs, ap (λ l. q ∷ l) e, rw ne (ap (λ l. q ∷ l) e'))
]
