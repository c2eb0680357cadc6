-- ===== src/Scheduler/Timer/Endless.antt =====
-- pa4_1/scheduler.c: a worker whose quanta are 0, or below, when it is in the queue. `suspend_worker`
-- takes one away before it asks whether they are 0.
use unix_sys_prog.Common.{
  ℕ, zero, suc, ◌+◌, ◌<◌, ◌≡◌, refl, ap, ◌∙◌, subst, true, false, none, some, List, [], ◌∷◌, ◌++◌,
  arith, ◌⊎◌, length, Bool-cases, inl, inr,
}
use unix_sys_prog.Common.Int.{ℤ, pos, negsuc, pos_part}
use unix_sys_prog.Scheduler.Memory.{is_zero, null, Timespec, State, Run}
use unix_sys_prog.Scheduler.Timer.{less_one, timer_handler, alarms, scheduler_run}
use unix_sys_prog.Scheduler.Timer.Queue.{Worker, Holding}
use unix_sys_prog.Scheduler.Timer.Turn.{suspended}
use unix_sys_prog.Scheduler.Timer.Alarm.{
  timer_handler-rotates, timer_handler-leaves, timer_handler-first,
}
use unix_sys_prog.Scheduler.Timer.Switching.{Running, wait_for_queue-cons}
use unix_sys_prog.Scheduler.Timer.Quanta.{snoc-cons}
use unix_sys_prog.Scheduler.Timer.Rounds.{alarms-next}

-- Some worker has no quanta left.
abbrev pub HasSpent : List Worker → Type 0
HasSpent [] = ⊥
HasSpent (w ∷ ws) = (pos_part w.thread.quanta ≡ 0) ⊎ HasSpent ws

spent_less_one :
    (q : ℤ) → pos_part q ≡ 0 → (pos_part (less_one q) ≡ 0) × (is_zero (less_one q) ≡ false)
unfolding less_one
spent_less_one (pos zero) h = (refl, refl)
spent_less_one (pos (suc n)) h = absurd (omega arith)
spent_less_one (negsuc n) h = (refl, refl)

pub HasSpent-snoc_left : (ws : List Worker) (w : Worker) → HasSpent ws → HasSpent (ws ++ w ∷ [])
HasSpent-snoc_left [] w h = absurd h
HasSpent-snoc_left (v ∷ ws) w (inl h) = inl h
HasSpent-snoc_left (v ∷ ws) w (inr h) = inr (HasSpent-snoc_left ws w h)

pub HasSpent-snoc_right :
    (ws : List Worker) (w : Worker) → pos_part w.thread.quanta ≡ 0 → HasSpent (ws ++ w ∷ [])
HasSpent-snoc_right [] w h = inl h
HasSpent-snoc_right (v ∷ ws) w h = inr (HasSpent-snoc_right ws w h)

HasSpent-resumed :
    (x v : Worker) (vs : List Worker)
    → x.thread.quanta ≡ v.thread.quanta
    → HasSpent (v ∷ vs)
    → HasSpent (x ∷ vs)
HasSpent-resumed x v vs same (inl h) = inl (ap pos_part same ∙ h)
HasSpent-resumed x v vs same (inr h) = inr h

-- The worker at the head goes to the tail, or leaves with quanta to be taken away.
HasSpent-rotates :
    (now : Timespec) (w : Worker) (ws : List Worker)
    → HasSpent (w ∷ ws)
    → HasSpent (ws ++ record w { thread = suspended now w.thread } ∷ [])
HasSpent-rotates now w ws (inl h) = HasSpent-snoc_right ws _ (spent_less_one w.thread.quanta h).0
HasSpent-rotates now w ws (inr h) = HasSpent-snoc_left ws _ h

HasSpent-leaves :
    (w : Worker) (ws : List Worker)
    → HasSpent (w ∷ ws)
    → is_zero (less_one w.thread.quanta) ≡ true
    → (v : Worker) × (vs : List Worker) × (ws ≡ v ∷ vs) × HasSpent (v ∷ vs)
HasSpent-leaves w ws (inl h) done = absurd (cc (spent_less_one w.thread.quanta h).1)
HasSpent-leaves w [] (inr h) done = absurd h
HasSpent-leaves w (v ∷ vs) (inr h) done = (v, vs, refl, h)

module _ (clock : ℕ → Timespec) (sched_yield : Run (Unit {0})) (fuel : ℕ) where
  -- An alarm leaves a worker running, and one that has no quanta in the queue.
  goes_on :
      (s : State) (w : Worker) (ws : List Worker)
      → Running clock sched_yield fuel s w ws
      → HasSpent (w ∷ ws)
      → (u : State) × (x : Worker) × (vs : List Worker) × (timer_handler clock sched_yield
            (suc fuel)
            s
          ≡ some (tt, u))
        × Running clock sched_yield fuel u x vs
        × HasSpent (x ∷ vs)
  goes_on s w ws run spent = elim (Bool-cases (is_zero (less_one w.thread.quanta))) [
    | inl done ↦
        let (v, vs, e, rest) = HasSpent-leaves w ws spent done in
        let (t, _, _, sw) = timer_handler-leaves clock sched_yield fuel s w ws run v vs e done in
        (
          sw.after,
          sw.worker,
          vs,
          sw.returns,
          sw.running,
          HasSpent-resumed sw.worker v vs sw.quanta rest,
        )
    | inr more ↦
        let (v, vs, e) =
          snoc-cons ws (record w { thread = suspended (clock s.readings) w.thread }) in
        let (t, _, _, sw) = timer_handler-rotates clock sched_yield fuel s w ws run v vs e more in
        (
          sw.after,
          sw.worker,
          vs,
          sw.returns,
          sw.running,
          HasSpent-resumed sw.worker v vs sw.quanta
              (subst HasSpent e (HasSpent-rotates (clock s.readings) w ws spent)),
        )
  ]

  alarms-endless :
      (left n : ℕ) (s : State) (w : Worker) (ws : List Worker)
      → Running clock sched_yield fuel s w ws
      → HasSpent (w ∷ ws)
      → alarms clock sched_yield (suc fuel) left n s ≡ none
  unfolding alarms
  alarms-endless zero n s w ws run spent = refl
  alarms-endless (suc left) n s w ws run spent =
      let (u, x, vs, handles, run', spent') = goes_on s w ws run spent in
      alarms-next clock sched_yield (suc fuel) left n s u run.going handles
      ∙ alarms-endless left (n + 1) u x vs run' spent'

  -- However many alarms come, the scheduler's thread does not end.
  pub scheduler_run-endless :
      (left : ℕ) (s : State) (w : Worker) (ws : List Worker)
      → Holding s (w ∷ ws)
      → s.current_thread ≡ null
      → s.quit ≡ false
      → s.completed + length (w ∷ ws) ≡ s.thread_count
      → length (w ∷ ws) < fuel
      → HasSpent (w ∷ ws)
      → scheduler_run clock sched_yield (suc fuel) left s ≡ none
  unfolding scheduler_run alarms
  scheduler_run-endless zero s w ws h idle going counted enough spent =
      rw (wait_for_queue-cons sched_yield fuel s w ws h enough) refl
  scheduler_run-endless (suc left) s w ws h idle going counted enough spent =
      let sw = timer_handler-first clock sched_yield fuel s w ws h idle going counted enough in
      rw (wait_for_queue-cons sched_yield fuel s w ws h enough) (
        alarms-next clock sched_yield (suc fuel) left 0 s sw.after going sw.returns
        ∙ alarms-endless left 1 sw.after sw.worker ws sw.running
            (HasSpent-resumed sw.worker w ws sw.quanta spent))
