-- ===== src/Scheduler/Main/Completion.antt =====
-- pa4_1/scheduler.c: what a run of the program comes to.
use unix_sys_prog.Common.{
  ℕ, suc, ◌+◌, ◌<◌, ◌≤◌, ◌≡◌, refl, ap, ◌∙◌, subst, Bool, true, List, [], ◌∷◌, arith, if◌then◌else◌,
  length, map,
}
use unix_sys_prog.Common.Int.{ℤ, pos}
use unix_sys_prog.Common.Text.{Text}
use unix_sys_prog.Vmm.Run.Atoi.{atoi}
use unix_sys_prog.Scheduler.Memory.{sigusr1, sigusr2, sigterm, State}
use unix_sys_prog.Scheduler.Timer.Queue.{Holding}
use unix_sys_prog.Scheduler.Timer.Quanta.{
  slices, slices_of, workers_of, HaveQuanta, signals, slices-cons,
}
use unix_sys_prog.Scheduler.Timer.Rounds.{scheduler_run-finishes_lem}
use unix_sys_prog.Scheduler.Main.{
  System, ended, failed, globals, init_sched_queue, create_workers, run_workers, smp5_main,
}
use unix_sys_prog.Scheduler.Main.Hiring.{
  total, total_of, threads_of, AllPositive, IsFresh, Hired, create_workers_lem,
}

-- The program has ended, and every worker has had its quanta.
pub record Completed (w : System) (quanta : List ℤ) (t : State) : Type 0 where
  pub quit : t.quit ≡ true
  pub completed : t.completed ≡ length quanta
  pub empty : Holding t []
  pub resumes : (id : ℕ) → signals id sigusr2 t.sent ≡ total_of w id 0 quanta
  pub suspends :
      (id : ℕ) → signals id sigusr1 t.sent + threads_of w id 0 quanta ≡ total_of w id 0 quanta
  pub ends : (id : ℕ) → signals id sigterm t.sent ≡ threads_of w id 0 quanta

if_true {ℓ} : {A : Type ℓ} (b : Bool) (x y : A) → b ≡ true → (if b then x else y) ≡ x
if_true b x y e = rw e refl

-- The state when all workers have entered the queue.
entered :
    (w : System) (size : ℕ) (qs : List ℤ)
    → IsFresh w (length qs)
    → length qs ≤ size
    → Hired w
        (length qs)
        (record (globals (length qs)) { queue_sem = size })
        []
        0
        qs
        (create_workers w 0 qs (record (globals (length qs)) { queue_sem = size }))
unfolding globals
entered w size qs fresh room =
    create_workers_lem w (length qs) qs 0 (record (globals (length qs)) { queue_sem = size }) []
      fresh
      (record {
        queue = record { head = refl; tail = refl; lock = refl; linked = tt; distinct = tt };
        infos = tt;
      })
      (λ j le lt. (refl, refl)) (omega arith) room

module _ (w : System) (fuel left size : ℕ) (created : w.timer_created ≡ true)
    (set : w.timer_set ≡ true) where
  run_workers-Completed :
      (q : ℤ) (qs : List ℤ)
      → IsFresh w (length (q ∷ qs))
      → AllPositive (q ∷ qs)
      → length (q ∷ qs) ≤ size
      → length (q ∷ qs) < fuel
      → total (q ∷ qs) + 1 < left
      → (t : State) × (run_workers w (suc fuel) left (pos size) (q ∷ qs)
          ≡ ended (total (q ∷ qs) + 1) t)
        × Completed w (q ∷ qs) t
  unfolding run_workers init_sched_queue globals
  run_workers-Completed q qs fresh all room enough rounds =
      let c = entered w size (q ∷ qs) fresh room in
      let (v, vs, e) = slices-cons c.workers (omega (arith, c.quanta, all.0)) in
      let r =
        scheduler_run-finishes_lem w.clock w.sched_yield fuel left c.after v vs
          (subst (Holding c.after) e c.holds) c.unchanged.current c.unchanged.quit
          (omega (arith, c.unchanged.completed, c.unchanged.thread_count, ap length e, c.size))
          (subst HaveQuanta e (c.have all tt)) (omega (arith, ap length e, c.size))
          (omega (arith, ap slices e, c.quanta)) in
      let count : slices (v ∷ vs) + 1 ≡ total (q ∷ qs) + 1 = omega (arith, ap slices e, c.quanta) in
      let (t, ran, f) = r in
      (
        t,
        if_true w.timer_created _ failed created
            ∙ if_true w.timer_set _ failed set
            ∙ rw (c.returns, ran) (ap (λ m. ended m t) count),
        record {
          quit = f.quit;
          completed = f.completed ∙ c.unchanged.thread_count;
          empty = f.empty;
          resumes = λ id. omega (
            arith,
            f.resumes id,
            ap (signals id sigusr2) c.unchanged.sent,
            ap (slices_of id) e,
            c.quanta_of id,
          );
          suspends = λ id. omega (
            arith,
            f.suspends id,
            ap (signals id sigusr1) c.unchanged.sent,
            ap (slices_of id) e,
            c.quanta_of id,
            ap (workers_of id) e,
            c.threads id,
          );
          ends = λ id. omega (
            arith,
            f.ends id,
            ap (signals id sigterm) c.unchanged.sent,
            ap (workers_of id) e,
            c.threads id,
          );
        },
      )

length-map : (f : Text → ℤ) (qs : List Text) → length (map f qs) ≡ length qs
length-map f [] = refl
length-map f (q ∷ qs) = ap suc (length-map f qs)

-- The program with as many quanta as it is told workers.
smp5_main-run_workers :
    (w : System) (fuel left : ℕ) (prog count size : Text) (qs : List Text)
    → atoi count ≡ pos (length qs)
    → smp5_main w fuel left (prog ∷ count ∷ size ∷ qs)
      ≡ run_workers w fuel left (atoi size) (map atoi qs)
unfolding smp5_main
smp5_main-run_workers w fuel left prog count size qs told = rw told (ground arith)

-- Suppose that `malloc` finds memory for every worker, none of it twice, that the timer can be made
-- and set, that the arguments give the number of workers, above 0, a size of the queue that has room
-- for all, and for each worker a number of quanta above 0, and that there is fuel above the number
-- of workers and for one alarm more than all quanta. When the workers enter the queue in the order of
-- their creation, before the first alarm, the program ends after exactly one alarm more than all
-- quanta: all workers are completed, the queue is empty, and each thread has been resumed as often as
-- its quanta say, suspended once less, and cancelled once.
pub smp5_main-Completed :
    (w : System) (fuel left room : ℕ) (prog count size q : Text) (qs : List Text)
    → w.timer_created ≡ true
    → w.timer_set ≡ true
    → IsFresh w (length (q ∷ qs))
    → atoi count ≡ pos (length (q ∷ qs))
    → atoi size ≡ pos room
    → AllPositive (map atoi (q ∷ qs))
    → length (q ∷ qs) ≤ room
    → length (q ∷ qs) < fuel
    → total (map atoi (q ∷ qs)) + 1 < left
    → (t : State) × (smp5_main w (suc fuel) left (prog ∷ count ∷ size ∷ q ∷ qs)
        ≡ ended (total (map atoi (q ∷ qs)) + 1) t)
      × Completed w (map atoi (q ∷ qs)) t
smp5_main-Completed w fuel left room prog count size q qs created set fresh told sized all fits
      enough rounds =
    let n = length-map atoi (q ∷ qs) in
    let (t, ran, c) =
      run_workers-Completed w fuel left room created set (atoi q) (map atoi qs) (rw n fresh) all
        (omega (arith, n)) (omega (arith, n)) rounds in
    (
      t,
      smp5_main-run_workers w (suc fuel) left prog count size (q ∷ qs) told
          ∙ ap (λ z. run_workers w (suc fuel) left z (map atoi (q ∷ qs))) sized
          ∙ ran,
      c,
    )
