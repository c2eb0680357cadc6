-- ===== src/Scheduler/ThreadList/Walks.antt =====
-- pa4_1/list.c: the loops of `list_size` and `print_list`.
use unix_sys_prog.Common.{
  ℕ, zero, suc, ◌+◌, ◌<◌, ◌≡◌, refl, subst, some, [], ◌∷◌, arith, length, map,
}
use unix_sys_prog.Common.Int.{pos}
use unix_sys_prog.Scheduler.Memory.{Ptr, null, State}
use unix_sys_prog.Scheduler.ThreadList.{
  sched_queue, pthread_mutex_unlock, size_loop, list_size, print_loop, print_list,
}
use unix_sys_prog.Scheduler.ThreadList.Steps.{==_of_ne, lock_lem, load_lem}
use unix_sys_prog.Scheduler.ThreadList.Segment.{
  Cells, first, Linked, Holds, ready, locked, Holds-ready,
}

module _ (s : State) where
  size_loop_lem :
      (fuel cnt : ℕ) (b : Ptr) (xs : Cells)
      → Linked s.elems b xs null
      → length xs < fuel
      → size_loop fuel (first xs null) cnt s ≡ some (cnt + length xs, s)
  unfolding size_loop
  size_loop_lem zero cnt b xs linked enough = absurd (omega arith)
  size_loop_lem (suc fuel) cnt b [] linked enough = ground arith
  size_loop_lem (suc fuel) cnt b ((p, i) ∷ xs) linked enough =
      rw
        (
          ==_of_ne linked.0,
          load_lem s linked.0 linked.1,
          size_loop_lem fuel (cnt + 1) p xs linked.2 (omega arith),
        )
        (ground arith)

  print_loop_lem :
      (fuel : ℕ) (b : Ptr) (xs : Cells)
      → Linked s.elems b xs null
      → length xs < fuel
      → print_loop fuel (first xs null) s ≡ some (map (λ x. x.1) xs, s)
  unfolding print_loop
  print_loop_lem zero b xs linked enough = absurd (omega arith)
  print_loop_lem (suc fuel) b [] linked enough = refl
  print_loop_lem (suc fuel) b ((p, i) ∷ xs) linked enough =
      rw
        (
          ==_of_ne linked.0,
          load_lem s linked.0 linked.1,
          print_loop_lem fuel p xs linked.2 (omega arith),
        )
        refl

-- With fuel above the length of the list, `list_size` returns the length and changes nothing.
pub list_size_lem :
    (s : State) (fuel : ℕ) (xs : Cells)
    → Holds s xs
    → length xs < fuel
    → list_size fuel sched_queue s ≡ some (pos (length xs), s)
unfolding list_size pthread_mutex_unlock
list_size_lem s fuel xs held enough =
    subst (λ t. list_size fuel sched_queue t ≡ some (pos (length xs), t)) (Holds-ready held)
      (rw
        (
          lock_lem (ready s xs) refl,
          size_loop_lem (locked (ready s xs)) fuel 0 null xs held.linked enough,
        )
        (ground arith))

pub print_list_lem :
    (s : State) (fuel : ℕ) (xs : Cells)
    → Holds s xs
    → length xs < fuel
    → print_list fuel s ≡ some (map (λ x. x.1) xs, s)
unfolding print_list pthread_mutex_unlock
print_list_lem s fuel xs held enough =
    subst (λ t. print_list fuel t ≡ some (map (λ x. x.1) xs, t)) (Holds-ready held)
      (rw
        (
          lock_lem (ready s xs) refl,
          print_loop_lem (locked (ready s xs)) fuel null xs held.linked enough,
        )
        refl)
