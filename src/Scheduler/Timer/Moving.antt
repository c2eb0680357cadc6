-- ===== src/Scheduler/Timer/Moving.antt =====
-- pa4_1/scheduler.c: the alarms after which a worker runs.
use unix_sys_prog.Common.{
  ℕ, suc, ◌+◌, ◌<◌, ◌≡◌, sym, ap, ◌∙◌, subst, true, false, some, List, ◌∷◌, arith, ◌==◌, Bool-cases,
  inl, inr, ==_iff,
}
use unix_sys_prog.Common.Int.{pos_part}
use unix_sys_prog.Scheduler.Memory.{Timespec, sigusr1, sigusr2, sigterm, State, Run}
use unix_sys_prog.Scheduler.Timer.{less_one, timer_handler}
use unix_sys_prog.Scheduler.Timer.Queue.{Worker}
use unix_sys_prog.Scheduler.Timer.Quanta.{
  slices, of_thread, slices_of, workers_of, HaveQuanta, signals, snoc-cons, slices-snoc,
  slices_of-snoc, workers_of-snoc, HaveQuanta-snoc, less_one_lem, is_zero-less_one, less_one_pos,
  slices-cons, of_thread-suc, signals-resumed, signals-resumed_after, signals-paused,
  signals-not_paused, signals-ended, signals-not_ended, resumed-slices, resumed-HaveQuanta,
  resumed-slices_of, resumed-of_thread,
}
use unix_sys_prog.Scheduler.Timer.Turn.{suspended}
use unix_sys_prog.Scheduler.Timer.Alarm.{timer_handler-rotates, timer_handler-leaves}
use unix_sys_prog.Scheduler.Timer.Switching.{Running}

module _ (clock : ℕ → Timespec) (sched_yield : Run (Unit {0})) (fuel : ℕ) where
  -- An alarm after which the workers `x ∷ vs` are in the queue, and `x` is the current one.
  pub record Moved (s : State) (w : Worker) (ws : List Worker) (u : State) (x : Worker)
      (vs : List Worker) : Type 0 where
    pub handles : timer_handler clock sched_yield (suc fuel) s ≡ some (tt, u)
    pub running : Running clock sched_yield fuel u x vs
    pub count : u.thread_count ≡ s.thread_count
    pub have : HaveQuanta (x ∷ vs)
    pub total : slices (w ∷ ws) ≡ suc (slices (x ∷ vs))
    pub resumed :
        (id : ℕ) → signals id sigusr2 u.sent ≡ signals id sigusr2 s.sent + of_thread id x 1
    pub left : (id : ℕ) → slices_of id (w ∷ ws) ≡ of_thread id w 1 + slices_of id (x ∷ vs)
    pub paused :
        (id : ℕ)
        → signals id sigusr1 u.sent + workers_of id (w ∷ ws)
          ≡ signals id sigusr1 s.sent + of_thread id w 1 + workers_of id (x ∷ vs)
    pub ended :
        (id : ℕ)
        → signals id sigterm u.sent + workers_of id (x ∷ vs)
          ≡ signals id sigterm s.sent + workers_of id (w ∷ ws)

  module _ (s : State) (w : Worker) (ws : List Worker) (run : Running clock sched_yield fuel s w ws)
      (all : HaveQuanta (w ∷ ws)) where
    moves-rotates :
        (pos_part w.thread.quanta == 1) ≡ false
        → (u : State) × (x : Worker) × (vs : List Worker) × Moved s w ws u x vs
    moves-rotates more =
        let w' = record w { thread = suspended (clock s.readings) w.thread } in
        let (v, vs, e) = snoc-cons ws w' in
        let (t, sent, same_count, sw) =
          timer_handler-rotates clock sched_yield fuel s w ws run v vs e
            (is_zero-less_one w.thread.quanta all.0 ∙ more) in
        let x = sw.worker in
        let u = sw.after in
        let less = less_one_lem w.thread.quanta all.0 in
        let sent' : u.sent ≡ (v.thread.thrid, sigusr2) ∷ (w.thread.thrid, sigusr1) ∷ s.sent =
          sw.sent ∙ ap (λ l. (v.thread.thrid, sigusr2) ∷ l) sent in
        let back : slices (v ∷ vs) ≡ slices ws + pos_part (less_one w.thread.quanta) =
          sym (ap slices e) ∙ slices-snoc ws w' in
        let back_of = λ (id : ℕ). sym (ap (slices_of id) e) ∙ slices_of-snoc id ws w' in
        let workers = λ (id : ℕ). sym (ap (workers_of id) e) ∙ workers_of-snoc id ws w' in
        let split = λ (id : ℕ).
          ap (of_thread id w) less ∙ of_thread-suc id w (pos_part (less_one w.thread.quanta)) in
        let same = resumed-of_thread x v vs sw.quanta sw.thrid in
        (
          u,
          x,
          vs,
          record {
            handles = sw.returns;
            running = sw.running;
            count = sw.count ∙ same_count;
            have = resumed-HaveQuanta x v vs sw.quanta sw.thrid (
                subst HaveQuanta e
                  (HaveQuanta-snoc ws w' all.1 (less_one_pos w.thread.quanta all.0 more)));
            total = omega (arith, resumed-slices x v vs sw.quanta sw.thrid, back, less);
            resumed = λ id.
                ap (signals id sigusr2) sent'
                ∙ omega (arith, signals-resumed id v.thread.thrid w.thread.thrid s.sent, same id 1);
            left = λ id.
                omega (arith, resumed-slices_of x v vs sw.quanta sw.thrid id, back_of id, split id);
            paused = λ id. omega (
              arith,
              ap (signals id sigusr1) sent',
              signals-paused id v.thread.thrid w.thread.thrid s.sent,
              same id 1,
              workers id,
            );
            ended = λ id. omega (
              arith,
              ap (signals id sigterm) sent',
              signals-not_ended id v.thread.thrid w.thread.thrid s.sent,
              same id 1,
              workers id,
            );
          },
        )

    moves-leaves :
        (v : Worker) (vs : List Worker)
        → ws ≡ v ∷ vs
        → (pos_part w.thread.quanta == 1) ≡ true
        → (u : State) × (x : Worker) × (vs : List Worker) × Moved s w ws u x vs
    moves-leaves v vs e last =
        let (t, sent, same_count, sw) =
          timer_handler-leaves clock sched_yield fuel s w ws run v vs e
            (is_zero-less_one w.thread.quanta all.0 ∙ last) in
        let x = sw.worker in
        let u = sw.after in
        let one = (==_iff _ 1).0 last in
        let sent' : u.sent ≡ (v.thread.thrid, sigusr2) ∷ (w.thread.thrid, sigterm) ∷ s.sent =
          sw.sent ∙ ap (λ l. (v.thread.thrid, sigusr2) ∷ l) sent in
        let own = λ (id : ℕ). ap (of_thread id w) one in
        let same = resumed-of_thread x v vs sw.quanta sw.thrid in
        (
          u,
          x,
          vs,
          record {
            handles = sw.returns;
            running = sw.running;
            count = sw.count ∙ same_count;
            have = resumed-HaveQuanta x v vs sw.quanta sw.thrid (subst HaveQuanta e all.1);
            total = omega (arith, resumed-slices x v vs sw.quanta sw.thrid, ap slices e, one);
            resumed = λ id.
                ap (signals id sigusr2) sent'
                ∙ omega (
                  arith,
                  signals-resumed_after id v.thread.thrid w.thread.thrid s.sent,
                  same id 1,
                );
            left = λ id. omega (
              arith,
              resumed-slices_of x v vs sw.quanta sw.thrid id,
              ap (slices_of id) e,
              own id,
            );
            paused = λ id. omega (
              arith,
              ap (signals id sigusr1) sent',
              signals-not_paused id v.thread.thrid w.thread.thrid s.sent,
              same id 1,
              ap (workers_of id) e,
            );
            ended = λ id. omega (
              arith,
              ap (signals id sigterm) sent',
              signals-ended id v.thread.thrid w.thread.thrid s.sent,
              same id 1,
              ap (workers_of id) e,
            );
          },
        )

    -- While more than one quantum is left, an alarm leaves a worker running.
    pub moves :
        1 < slices (w ∷ ws) → (u : State) × (x : Worker) × (vs : List Worker) × Moved s w ws u x vs
    moves more = elim (Bool-cases (pos_part w.thread.quanta == 1)) [
      | inl last ↦
          let (v, vs, e) = slices-cons ws (omega (arith, (==_iff _ 1).0 last)) in
          moves-leaves v vs e last
      | inr more ↦ moves-rotates more
    ]
