-- ===== src/Scheduler/Timer/Alarm.antt =====
-- pa4_1/scheduler.c: what one alarm of the timer does.
use unix_sys_prog.Common.{
  ℕ, suc, ◌+◌, ◌<◌, ◌≡◌, refl, sym, ap, ◌∙◌, subst, true, false, ==_iff, some, List, [], ◌∷◌, ◌++◌,
  arith, ◌==◌, length,
}
use unix_sys_prog.Common.Int.{◌+ℤ◌}
use unix_sys_prog.Scheduler.Memory.{is_zero, null, Timespec, sigusr1, sigterm, State, Run}
use unix_sys_prog.Scheduler.ThreadList.Steps.{==_of_ne}
use unix_sys_prog.Scheduler.Timer.{less_one, suspend_worker, timer_handler}
use unix_sys_prog.Scheduler.Timer.Queue.{Worker, Holding, Holds-move}
use unix_sys_prog.Scheduler.Timer.Turn.{suspended, suspend_worker-Rotates, suspend_worker-Leaves}
use unix_sys_prog.Scheduler.Timer.Switching.{
  length-snoc, queue_size, Running, Switched, switch, switch_lem, switch-done, leb-true,
}

module _ (clock : ℕ → Timespec) (sched_yield : Run (Unit {0})) (fuel : ℕ) where
  -- An alarm while a worker runs: its suspension, and what follows.
  timer_handler-suspends :
      (s t : State) (w : Worker) (ws : List Worker)
      → Running clock sched_yield fuel s w ws
      → suspend_worker clock w.info s ≡ some (tt, t)
      → timer_handler clock sched_yield (suc fuel) s ≡ switch clock sched_yield fuel t
  unfolding timer_handler
  timer_handler-suspends s t w ws run suspends =
      let size = queue_size (suc fuel) s (w ∷ ws) run.holding (omega (arith, run.enough)) in
      let busy =
        subst (λ p. (p == null) ≡ false) (sym run.current) (==_of_ne run.holding.infos.0) in
      let suspends' =
        subst (λ p. suspend_worker clock p s ≡ some (tt, t)) (sym run.current) suspends in
      rw (size, busy, suspends') refl

  module _ (s : State) (w : Worker) (ws : List Worker)
      (run : Running clock sched_yield fuel s w ws) where
    -- The alarm of a worker that has quanta left: it goes to the tail, and the next is resumed.
    pub timer_handler-rotates :
        (v : Worker) (vs : List Worker)
        → ws ++ record w { thread = suspended (clock s.readings) w.thread } ∷ [] ≡ v ∷ vs
        → is_zero (less_one w.thread.quanta) ≡ false
        → (t : State) × (t.sent ≡ (w.thread.thrid, sigusr1) ∷ s.sent)
          × (t.thread_count ≡ s.thread_count)
          × Switched clock sched_yield fuel t v vs (timer_handler clock sched_yield (suc fuel) s)
    timer_handler-rotates v vs e more =
        let r = suspend_worker-Rotates clock s w ws run.holding more in
        let t = record s {
          elems = r.elems;
          sched_queue = r.queue;
          infos = r.infos;
          sent = (w.thread.thrid, sigusr1) ∷ s.sent;
          readings = s.readings + 1;
        } in
        let h : Holding (record s { elems = r.elems; sched_queue = r.queue; infos = r.infos })
            (v ∷ vs) =
          rw (← e) r.holds in
        let n : length (v ∷ vs) ≡ length (w ∷ ws) = sym (ap length e) ∙ length-snoc ws _ in
        let sw =
          switch_lem clock sched_yield fuel t v vs
            (record { queue = Holds-move _ t _ h.queue refl refl; infos = h.infos }) run.going
            (omega (arith, run.counted)) (omega (arith, run.enough)) in
        (
          t,
          refl,
          refl,
          subst (Switched clock sched_yield fuel t v vs)
              (sym (timer_handler-suspends s t w ws run r.returns)) sw,
        )

    -- The alarm of a worker that has none left, with others behind it: it ends, and the next is resumed.
    pub timer_handler-leaves :
        (v : Worker) (vs : List Worker)
        → ws ≡ v ∷ vs
        → is_zero (less_one w.thread.quanta) ≡ true
        → (t : State) × (t.sent ≡ (w.thread.thrid, sigterm) ∷ s.sent)
          × (t.thread_count ≡ s.thread_count)
          × Switched clock sched_yield fuel t v vs (timer_handler clock sched_yield (suc fuel) s)
    timer_handler-leaves v vs e done =
        let r = suspend_worker-Leaves clock s w ws run.holding done in
        let t = record s {
          elems = r.elems;
          sched_queue = r.queue;
          infos = r.infos;
          sent = (w.thread.thrid, sigterm) ∷ s.sent;
          readings = s.readings + 1;
          wait_times = s.wait_times +ℤ w.thread.wait_time;
          run_times = s.run_times +ℤ (suspended (clock s.readings) w.thread).run_time;
          completed = s.completed + 1;
        } in
        let h : Holding (record s { elems = r.elems; sched_queue = r.queue; infos = r.infos })
            (v ∷ vs) =
          rw (← e) r.holds in
        let n : length ws ≡ length (v ∷ vs) = ap length e in
        let sw =
          switch_lem clock sched_yield fuel t v vs
            (record { queue = Holds-move _ t _ h.queue refl refl; infos = h.infos }) run.going
            (omega (arith, run.counted)) (omega (arith, run.enough)) in
        (
          t,
          refl,
          refl,
          subst (Switched clock sched_yield fuel t v vs)
              (sym (timer_handler-suspends s t w ws run r.returns)) sw,
        )

    -- The alarm of the last worker, when it has no quanta left, ends the program.
    pub timer_handler-quits :
        ws ≡ []
        → is_zero (less_one w.thread.quanta) ≡ true
        → (t : State) × (timer_handler clock sched_yield (suc fuel) s ≡ some (tt, t))
          × (t.sent ≡ (w.thread.thrid, sigterm) ∷ s.sent)
          × (t.quit ≡ true)
          × (t.completed ≡ s.thread_count)
          × Holding t []
    timer_handler-quits e done =
        let r = suspend_worker-Leaves clock s w ws run.holding done in
        let u = record s {
          elems = r.elems;
          sched_queue = r.queue;
          infos = r.infos;
          sent = (w.thread.thrid, sigterm) ∷ s.sent;
          readings = s.readings + 1;
          wait_times = s.wait_times +ℤ w.thread.wait_time;
          run_times = s.run_times +ℤ (suspended (clock s.readings) w.thread).run_time;
          completed = s.completed + 1;
        } in
        let t = record u { current_thread = null; quit = true } in
        let n : length ws ≡ 0 = ap length e in
        let h =
          subst (Holding (record s { elems = r.elems; sched_queue = r.queue; infos = r.infos })) e
            r.holds in
        (
          t,
          timer_handler-suspends s u w ws run r.returns
              ∙ switch-done clock sched_yield fuel u
                  (leb-true u.thread_count u.completed (omega (arith, run.counted))),
          refl,
          refl,
          omega (arith, run.counted),
          record { queue = Holds-move _ t _ h.queue refl refl; infos = h.infos },
        )

  timer_handler-idle :
      (s : State) (v : Worker) (vs : List Worker)
      → Holding s (v ∷ vs)
      → (s.current_thread == null) ≡ true
      → length (v ∷ vs) < fuel
      → timer_handler clock sched_yield (suc fuel) s ≡ switch clock sched_yield fuel s
  unfolding timer_handler
  timer_handler-idle s v vs h idle enough =
      rw (queue_size (suc fuel) s (v ∷ vs) h (omega (arith, enough)), idle) refl

  -- The first alarm resumes the head of the queue.
  pub timer_handler-first :
      (s : State) (v : Worker) (vs : List Worker)
      → Holding s (v ∷ vs)
      → s.current_thread ≡ null
      → s.quit ≡ false
      → s.completed + length (v ∷ vs) ≡ s.thread_count
      → length (v ∷ vs) < fuel
      → Switched clock sched_yield fuel s v vs (timer_handler clock sched_yield (suc fuel) s)
  timer_handler-first s v vs h idle going counted enough =
      subst (Switched clock sched_yield fuel s v vs)
        (sym (timer_handler-idle s v vs h ((==_iff s.current_thread null).1 idle) enough))
        (switch_lem clock sched_yield fuel s v vs h going counted enough)
