-- ===== src/Scheduler/Timer/Queue.antt =====
-- pa4_1/scheduler.c: the workers in the queue, with their thread infos.
use unix_sys_prog.Common.{
  suc, ◌≡◌, ◌≢◌, refl, ap, ◌∙◌, Bool, false, ◌||◌, Option, some, List, [], ◌∷◌, ◌++◌, map, length,
  arith, ◌==◌,
}
use unix_sys_prog.Scheduler.Memory.{Ptr, null, ThreadInfo, State, write, load_info, load}
use unix_sys_prog.Scheduler.ThreadList.Steps.{==_of_ne, ==_flip}
use unix_sys_prog.Scheduler.ThreadList.Segment.{Cells, Holds, write-ne}

-- A thread info and where it stands.
pub record Worker : Type 0 where
  pub info : Ptr
  pub thread : ThreadInfo

abbrev pub cells : List Worker → Cells
cells ws = map (λ (w : Worker). (w.thread.le, w.info)) ws

abbrev pub has_info : Ptr → List Worker → Bool
has_info p [] = false
has_info p (w ∷ ws) = (p == w.info) || has_info p ws

-- Each worker's info stands in the heap, and no two workers share one.
abbrev pub Infos : (Ptr → Option ThreadInfo) → List Worker → Type 0
Infos h [] = Unit
Infos h (w ∷ ws) =
    (w.info ≢ null) × (h w.info ≡ some w.thread) × (has_info w.info ws ≡ false) × Infos h ws

-- The workers `ws` are in the queue, in this order.
pub record Holding (s : State) (ws : List Worker) : Type 0 where
  pub queue : Holds s (cells ws)
  pub infos : Infos s.infos ws

pub Infos-write :
    (h : Ptr → Option ThreadInfo) (p : Ptr) (c : Option ThreadInfo) (ws : List Worker)
    → has_info p ws ≡ false
    → Infos h ws
    → Infos (write h p c) ws
Infos-write h p c [] out i = tt
Infos-write h p c (w ∷ ws) out i =
    (i.0, write-ne h w.info p c (ground arith) ∙ i.1, i.2, Infos-write h p c ws (ground arith) i.3)

pub has_info-snoc :
    (p : Ptr) (ws : List Worker) (w : Worker)
    → has_info p ws ≡ false
    → (p == w.info) ≡ false
    → has_info p (ws ++ w ∷ []) ≡ false
has_info-snoc p [] w out ne = ground arith
has_info-snoc p (v ∷ ws) w out ne = ground (arith, has_info-snoc p ws w)

pub Infos-snoc :
    (h : Ptr → Option ThreadInfo) (ws : List Worker) (w : Worker)
    → Infos h ws
    → w.info ≢ null
    → h w.info ≡ some w.thread
    → has_info w.info ws ≡ false
    → Infos h (ws ++ w ∷ [])
Infos-snoc h [] w i real held out = (real, held, refl, tt)
Infos-snoc h (v ∷ ws) w i real held out = (
  i.0,
  i.1,
  has_info-snoc v.info ws w i.2 (==_flip w.info v.info (ground arith)),
  Infos-snoc h ws w i.3 real held (ground arith),
)

pub cells-append : (ws vs : List Worker) → cells (ws ++ vs) ≡ cells ws ++ cells vs
cells-append [] vs = refl
cells-append (w ∷ ws) vs = ap (λ l. (w.thread.le, w.info) ∷ l) (cells-append ws vs)

pub length-cells : (ws : List Worker) → length (cells ws) ≡ length ws
length-cells [] = refl
length-cells (w ∷ ws) = ap suc (length-cells ws)

-- What is no part of the list does not matter to it.
pub Holds-move :
    (s t : State) (xs : Cells)
    → Holds s xs
    → t.elems ≡ s.elems
    → t.sched_queue ≡ s.sched_queue
    → Holds t xs
Holds-move s t xs held e q = record {
  head = rw q held.head;
  tail = rw q held.tail;
  lock = rw q held.lock;
  linked = rw e held.linked;
  distinct = held.distinct;
}

pub load_info_lem :
    (s : State) (p : Ptr) (t : ThreadInfo)
    → p ≢ null
    → s.infos p ≡ some t
    → load_info p s ≡ some (t, s)
unfolding load_info load
load_info_lem s p t real held = rw (==_of_ne real, held) refl
