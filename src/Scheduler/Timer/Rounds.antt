-- ===== src/Scheduler/Timer/Rounds.antt =====
-- pa4_1/scheduler.c: the alarms from the first to the one that ends the program.
use unix_sys_prog.Common.{
  ℕ, zero, suc, ◌+◌, ◌-◌, ◌<◌, ◌≡◌, refl, sym, ap, ◌∙◌, subst, true, false, some, List, [], ◌∷◌,
  arith, if◌then◌else◌, length, ==_iff,
}
use unix_sys_prog.Common.Int.{pos_part}
use unix_sys_prog.Scheduler.Memory.{
  null, Timespec, sigusr1, sigusr2, sigterm, State, Run, ◌>>◌, pure,
}
use unix_sys_prog.Scheduler.Timer.{timer_handler, alarms, scheduler_run}
use unix_sys_prog.Scheduler.Timer.Queue.{Worker, Holding}
use unix_sys_prog.Scheduler.Timer.Quanta.{
  slices, of_thread, slices_of, workers_of, HaveQuanta, signals, is_zero-less_one, signals-first,
  slices-nil, signals-last_ended, signals-last_other, resumed-slices, resumed-HaveQuanta,
  resumed-slices_of, resumed-of_thread,
}
use unix_sys_prog.Scheduler.Timer.Alarm.{timer_handler-quits, timer_handler-first}
use unix_sys_prog.Scheduler.Timer.Switching.{Running, wait_for_queue-cons}
use unix_sys_prog.Scheduler.Timer.Moving.{moves}

-- What has been sent when the program ends, from a state in which the workers `ws` are in the queue and
-- `resumed` of them has been resumed.
pub record Finished (s : State) (ws : List Worker) (current : ℕ → ℕ) (t : State) : Type 0 where
  pub quit : t.quit ≡ true
  pub completed : t.completed ≡ s.thread_count
  pub empty : Holding t []
  pub resumes :
      (id : ℕ)
      → signals id sigusr2 t.sent + current id ≡ signals id sigusr2 s.sent + slices_of id ws
  pub suspends :
      (id : ℕ)
      → signals id sigusr1 t.sent + workers_of id ws ≡ signals id sigusr1 s.sent + slices_of id ws
  pub ends : (id : ℕ) → signals id sigterm t.sent ≡ signals id sigterm s.sent + workers_of id ws

module _ (clock : ℕ → Timespec) (sched_yield : Run (Unit {0})) where
  pub alarms-next :
      (fuel left n : ℕ) (s t : State)
      → s.quit ≡ false
      → timer_handler clock sched_yield fuel s ≡ some (tt, t)
      → alarms clock sched_yield fuel (suc left) n s ≡ alarms clock sched_yield fuel left (n + 1) t
  unfolding alarms
  alarms-next fuel left n s t going handles =
      subst
        (λ b.
          (if b then pure n else do
            timer_handler clock sched_yield fuel
            alarms clock sched_yield fuel left (n + 1))
            s
          ≡ alarms clock sched_yield fuel left (n + 1) t)
        (sym going) (rw handles refl)

  alarms-last :
      (fuel left n : ℕ) (s : State)
      → s.quit ≡ true
      → alarms clock sched_yield fuel (suc left) n s ≡ some (n, s)
  unfolding alarms
  alarms-last fuel left n s quit =
      subst
        (λ b.
          (if b then pure n else do
            timer_handler clock sched_yield fuel
            alarms clock sched_yield fuel left (n + 1))
            s
          ≡ some (n, s))
        (sym quit) refl

module _ (clock : ℕ → Timespec) (sched_yield : Run (Unit {0})) (fuel : ℕ) where
  module _ (s : State) (w : Worker) (ws : List Worker) (run : Running clock sched_yield fuel s w ws)
      (all : HaveQuanta (w ∷ ws)) where
    -- The last quantum.
    quits :
        (left n : ℕ)
        → slices (w ∷ ws) ≡ 1
        → (t : State) × (alarms clock sched_yield (suc fuel) (suc (suc left)) n s ≡ some (n + 1, t))
          × Finished s (w ∷ ws) (λ id. of_thread id w 1) t
    quits left n total =
        let none_behind = slices-nil ws all.1 (omega (arith, all.0)) in
        let one : pos_part w.thread.quanta ≡ 1 = omega (arith, all.0) in
        let (t, handles, sent, quit, completed, empty) =
          timer_handler-quits clock sched_yield fuel s w ws run none_behind
            (is_zero-less_one w.thread.quanta all.0 ∙ (==_iff _ 1).1 one) in
        (
          t,
          alarms-next clock sched_yield (suc fuel) (suc left) n s t run.going handles
              ∙ alarms-last clock sched_yield (suc fuel) left (n + 1) t quit,
          record {
            quit = quit;
            completed = completed;
            empty = empty;
            resumes = λ id. omega (
              arith,
              ap (signals id sigusr2) sent,
              (signals-last_other id w.thread.thrid s.sent).1,
              ap (of_thread id w) one,
              ap (slices_of id) none_behind,
            );
            suspends = λ id. omega (
              arith,
              ap (signals id sigusr1) sent,
              (signals-last_other id w.thread.thrid s.sent).0,
              ap (of_thread id w) one,
              ap (slices_of id) none_behind,
              ap (workers_of id) none_behind,
            );
            ends = λ id. omega (
              arith,
              ap (signals id sigterm) sent,
              signals-last_ended id w.thread.thrid s.sent,
              ap (workers_of id) none_behind,
            );
          },
        )

  -- The alarms from a state in which a worker runs.
  finish :
      (k left n : ℕ) (s : State) (w : Worker) (ws : List Worker)
      → Running clock sched_yield fuel s w ws
      → HaveQuanta (w ∷ ws)
      → slices (w ∷ ws) ≡ suc k
      → suc k < left
      → (t : State) × (alarms clock sched_yield (suc fuel) left n s ≡ some (n + suc k, t))
        × Finished s (w ∷ ws) (λ id. of_thread id w 1) t
  finish k zero n s w ws run all total enough = absurd (omega arith)
  finish zero (suc zero) n s w ws run all total enough = absurd (omega arith)
  finish zero (suc (suc left)) n s w ws run all total enough = quits s w ws run all left n total
  finish (suc k) (suc left) n s w ws run all total enough =
      let (u, x, vs, m) = moves clock sched_yield fuel s w ws run all (omega (arith, total)) in
      let (t, ran, f) =
        finish k left (n + 1) u x vs m.running m.have (omega (arith, m.total, total))
          (omega (arith, enough)) in
      let count : n + 1 + suc k ≡ n + suc (suc k) = omega arith in
      (
        t,
        alarms-next clock sched_yield (suc fuel) left n s u run.going m.handles
            ∙ ran
            ∙ ap (λ c. some (c, t)) count,
        record {
          quit = f.quit;
          completed = f.completed ∙ m.count;
          empty = f.empty;
          resumes = λ id. omega (arith, f.resumes id, m.resumed id, m.left id);
          suspends = λ id. omega (arith, f.suspends id, m.paused id, m.left id);
          ends = λ id. omega (arith, f.ends id, m.ended id);
        },
      )

  -- The scheduler's thread, from a queue that no other worker will enter.
  pub scheduler_run-finishes_lem :
      (left : ℕ) (s : State) (w : Worker) (ws : List Worker)
      → Holding s (w ∷ ws)
      → s.current_thread ≡ null
      → s.quit ≡ false
      → s.completed + length (w ∷ ws) ≡ s.thread_count
      → HaveQuanta (w ∷ ws)
      → length (w ∷ ws) < fuel
      → slices (w ∷ ws) + 1 < left
      → (t : State) × (scheduler_run clock sched_yield (suc fuel) left s
          ≡ some (slices (w ∷ ws) + 1, t))
        × Finished s (w ∷ ws) (λ id. 0) t
  unfolding scheduler_run
  scheduler_run-finishes_lem zero s w ws h idle going counted all enough rounds =
      absurd (omega arith)
  scheduler_run-finishes_lem (suc left) s w ws h idle going counted all enough rounds =
      let sw = timer_handler-first clock sched_yield fuel s w ws h idle going counted enough in
      let x = sw.worker in
      let k = slices (w ∷ ws) - 1 in
      let same = resumed-of_thread x w ws sw.quanta sw.thrid in
      let (t, ran, f) =
        finish k left 1 sw.after x ws sw.running (resumed-HaveQuanta x w ws sw.quanta sw.thrid all)
          (omega (arith, resumed-slices x w ws sw.quanta sw.thrid, all.0))
          (omega (arith, all.0, rounds)) in
      let count : 1 + suc k ≡ slices (w ∷ ws) + 1 = omega (arith, all.0) in
      (
        t,
        rw (wait_for_queue-cons sched_yield fuel s w ws h enough) (
            alarms-next clock sched_yield (suc fuel) left 0 s sw.after going sw.returns
            ∙ ran
            ∙ ap (λ c. some (c, t)) count),
        record {
          quit = f.quit;
          completed = f.completed ∙ sw.count;
          empty = f.empty;
          resumes = λ id. omega (
            arith,
            f.resumes id,
            ap (signals id sigusr2) sw.sent,
            resumed-slices_of x w ws sw.quanta sw.thrid id,
            same id 1,
          );
          suspends = λ id. omega (
            arith,
            f.suspends id,
            ap (signals id sigusr1) sw.sent,
            (signals-first id w.thread.thrid s.sent).0,
            resumed-slices_of x w ws sw.quanta sw.thrid id,
            same id 1,
          );
          ends = λ id. omega (
            arith,
            f.ends id,
            ap (signals id sigterm) sw.sent,
            (signals-first id w.thread.thrid s.sent).1,
            ap (λ c. c + workers_of id ws) (same id 1),
            same id 1,
          );
        },
      )
