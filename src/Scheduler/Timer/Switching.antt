-- ===== src/Scheduler/Timer/Switching.antt =====
-- pa4_1/scheduler.c: the choice of the next worker at an alarm, and its resumption.
use unix_sys_prog.Common.{
  ℕ, suc, ◌+◌, ◌<◌, ◌≤◌, ◌≡◌, refl, sym, ap, ◌∙◌, subst, true, false, Option, some, List, [], ◌∷◌,
  ◌++◌, arith, ◌==◌, if◌then◌else◌, leb, length,
}
use unix_sys_prog.Common.Int.{pos}
use unix_sys_prog.Scheduler.Memory.{null, Timespec, sigusr2, State, Run, ◌>>=◌, ◌>>◌, load_elem}
use unix_sys_prog.Scheduler.ThreadList.{sched_queue, list_size}
use unix_sys_prog.Scheduler.ThreadList.Segment.{elem, first}
use unix_sys_prog.Scheduler.ThreadList.Walks.{list_size_lem}
use unix_sys_prog.Scheduler.ThreadList.Steps.{==_of_ne, load_lem}
use unix_sys_prog.Scheduler.Timer.{
  resume_worker, wait_for_queue, next_worker, set_current, set_quit,
}
use unix_sys_prog.Scheduler.Timer.Queue.{Worker, cells, length-cells, Holding, Holds-move}
use unix_sys_prog.Scheduler.Timer.Turn.{resumed, resume_worker_lem}

pub length-snoc : (ws : List Worker) (w : Worker) → length (ws ++ w ∷ []) ≡ suc (length ws)
length-snoc [] w = refl
length-snoc (v ∷ ws) w = ap suc (length-snoc ws w)

-- With fuel above the length of the queue, its length is read.
pub queue_size :
    (fuel : ℕ) (s : State) (ws : List Worker)
    → Holding s ws
    → length ws < fuel
    → list_size fuel sched_queue s ≡ some (pos (length ws), s)
queue_size fuel s ws h enough =
    list_size_lem s fuel (cells ws) h.queue (rw (length-cells ws) enough)
    ∙ ap (λ n. some (pos n, s)) (length-cells ws)

module _ (sched_yield : Run (Unit {0})) (fuel : ℕ) (s : State) where
  pub wait_for_queue-cons :
      (w : Worker) (ws : List Worker)
      → Holding s (w ∷ ws)
      → length (w ∷ ws) < fuel
      → wait_for_queue sched_yield (suc fuel) s ≡ some (tt, s)
  unfolding wait_for_queue
  wait_for_queue-cons w ws h enough = rw (queue_size fuel s (w ∷ ws) h enough) refl

  next_worker-head :
      (w : Worker) (ws : List Worker)
      → Holding s (w ∷ ws)
      → length (w ∷ ws) < fuel
      → leb s.thread_count s.completed ≡ false
      → next_worker sched_yield (suc fuel) s ≡ some (w.info, s)
  unfolding next_worker
  next_worker-head w ws h enough more =
      let e = elem null (first (cells ws) null) w.info in
      let head =
        subst (λ p. load_elem p s ≡ some (e, s)) (sym h.queue.head)
          (load_lem s h.queue.linked.0 h.queue.linked.1) in
      rw (more, wait_for_queue-cons w ws h enough, head) refl

  next_worker-done :
      leb s.thread_count s.completed ≡ true → next_worker sched_yield (suc fuel) s ≡ some (null, s)
  unfolding next_worker
  next_worker-done done = rw done refl

pub leb-true : (a b : ℕ) → a ≤ b → leb a b ≡ true
leb-true a b h = ground arith

module _ (clock : ℕ → Timespec) (sched_yield : Run (Unit {0})) (fuel : ℕ) where
  -- The head of the queue is the current worker.
  pub record Running (s : State) (w : Worker) (ws : List Worker) : Type 0 where
    pub holding : Holding s (w ∷ ws)
    pub current : s.current_thread ≡ w.info
    pub going : s.quit ≡ false
    pub counted : s.completed + length (w ∷ ws) ≡ s.thread_count
    pub enough : length (w ∷ ws) < fuel

  -- What follows the suspension, when the queue is then `v ∷ vs`.
  pub record Switched (t : State) (v : Worker) (vs : List Worker) (r : Option (Unit {0} × State))
      : Type 0 where
    pub after : State
    pub worker : Worker
    pub returns : r ≡ some (tt, after)
    pub running : Running after worker vs
    pub quanta : worker.thread.quanta ≡ v.thread.quanta
    pub thrid : worker.thread.thrid ≡ v.thread.thrid
    pub count : after.thread_count ≡ t.thread_count
    pub sent : after.sent ≡ (v.thread.thrid, sigusr2) ∷ t.sent

  -- The choice of the next worker and its resumption.
  abbrev pub switch : Run (Unit {0})
  switch = do
    info ← next_worker sched_yield (suc fuel)
    set_current info
    if info == null then set_quit else resume_worker clock info

  pub switch_lem :
      (t : State) (v : Worker) (vs : List Worker)
      → Holding t (v ∷ vs)
      → t.quit ≡ false
      → t.completed + length (v ∷ vs) ≡ t.thread_count
      → length (v ∷ vs) < fuel
      → Switched t v vs (switch t)
  switch_lem t v vs h going counted enough =
      let s1 = record t { current_thread = v.info } in
      let r =
        resume_worker_lem clock s1 v vs
          (record { queue = Holds-move t s1 _ h.queue refl refl; infos = h.infos }) in
      let u = record s1 {
        infos = r.infos;
        sent = (v.thread.thrid, sigusr2) ∷ t.sent;
        readings = t.readings + 1;
      } in
      record {
        after = u;
        worker = record v { thread = resumed (clock t.readings) v.thread };
        returns =
            rw
              (
                next_worker-head sched_yield fuel t v vs h enough (ground arith),
                ==_of_ne h.infos.0,
                r.returns,
              )
              refl;
        running = record {
          holding = record {
            queue = Holds-move _ u _ r.holds.queue refl refl;
            infos = r.holds.infos;
          };
          current = refl;
          going = going;
          counted = counted;
          enough = enough;
        };
        quanta = refl;
        thrid = refl;
        count = refl;
        sent = refl;
      }

  pub switch-done :
      (t : State)
      → leb t.thread_count t.completed ≡ true
      → switch t ≡ some (tt, record t { current_thread = null; quit = true })
  switch-done t done = rw (next_worker-done sched_yield fuel t done) refl
