-- ===== src/Scheduler/Timer/Turn.antt =====
-- pa4_1/scheduler.c: what suspend_worker and resume_worker do to the worker at the head of the queue.
use unix_sys_prog.Common.{ℕ, ◌+◌, ◌≡◌, ◌≢◌, refl, true, false, Option, some, List, [], ◌∷◌, ◌++◌}
use unix_sys_prog.Common.Int.{◌+ℤ◌}
use unix_sys_prog.Scheduler.Clock.{time_difference}
use unix_sys_prog.Scheduler.Memory.{
  is_zero, Ptr, null, ThreadInfoList, Timespec, ThreadInfo, sigusr1, sigusr2, sigterm, State, write,
  pthread_kill,
}
use unix_sys_prog.Scheduler.ThreadList.Steps.{write_self}
use unix_sys_prog.Scheduler.ThreadList.Segment.{Heap}
use unix_sys_prog.Scheduler.Timer.{
  less_one, update_run_time, update_wait_time, add_times, cancel_worker, clock_gettime,
  suspend_worker, resume_worker,
}
use unix_sys_prog.Scheduler.Timer.Queue.{Worker, Holding, Holds-move, load_info_lem}
use unix_sys_prog.Scheduler.Timer.Suspend.{rotate, leave, update}

-- The thread info of a worker that is suspended, or resumed, when the clock says `now`.
abbrev pub suspended : Timespec → ThreadInfo → ThreadInfo
suspended now t = record t {
  suspend_time = now;
  quanta = less_one t.quanta;
  run_time = t.run_time +ℤ time_difference now t.resume_time;
}

abbrev pub resumed : Timespec → ThreadInfo → ThreadInfo
resumed now t = record t {
  resume_time = now;
  wait_time = t.wait_time +ℤ time_difference now t.suspend_time;
}

module _ (s : State) (p : Ptr) (t : ThreadInfo) (real : p ≢ null) (held : s.infos p ≡ some t) where
  update_run_time_lem :
      update_run_time p s
      ≡ some (
        tt,
        record s {
          infos = write s.infos p (
              some (record t {
                quanta = less_one t.quanta;
                run_time = t.run_time +ℤ time_difference t.suspend_time t.resume_time;
              }));
        },
      )
  unfolding update_run_time
  update_run_time_lem = rw (load_info_lem s p t real held) refl

  update_wait_time_lem :
      update_wait_time p s
      ≡ some (
        tt,
        record s {
          infos = write s.infos p (
              some (record t {
                wait_time = t.wait_time +ℤ time_difference t.resume_time t.suspend_time;
              }));
        },
      )
  unfolding update_wait_time
  update_wait_time_lem = rw (load_info_lem s p t real held) refl

-- The two writes to the head's thread info.
update_twice :
    (s : State) (w : Worker) (ws : List Worker) (t u : ThreadInfo)
    → Holding s (w ∷ ws)
    → t.le ≡ w.thread.le
    → u.le ≡ t.le
    → Holding
        (record s { infos = write (write s.infos w.info (some t)) w.info (some u) })
        (record w { thread = u } ∷ ws)
update_twice s w ws t u h same same' =
    update (record s { infos = write s.infos w.info (some t) }) (record w { thread = t }) ws u
      (update s w ws t h same) same'

module _ (clock : ℕ → Timespec) (s : State) (w : Worker) (ws : List Worker)
    (h : Holding s (w ∷ ws)) where
  abbrev pub now : Timespec
  now = clock s.readings

  -- A worker that has quanta left.
  pub record Rotates (r : Option (Unit {0} × State)) : Type 0 where
    pub elems : Heap
    pub queue : ThreadInfoList
    pub infos : Ptr → Option ThreadInfo
    pub returns :
        r
        ≡ some (
          tt,
          record s {
            elems = elems;
            sched_queue = queue;
            infos = infos;
            sent = (w.thread.thrid, sigusr1) ∷ s.sent;
            readings = s.readings + 1;
          },
        )
    pub holds :
        Holding
          (record s { elems = elems; sched_queue = queue; infos = infos })
          (ws ++ record w { thread = suspended now w.thread } ∷ [])

  pub suspend_worker-Rotates :
      is_zero (less_one w.thread.quanta) ≡ false → Rotates (suspend_worker clock w.info s)
  unfolding suspend_worker clock_gettime pthread_kill
  suspend_worker-Rotates more =
      let p = w.info in
      let t1 = record w.thread { suspend_time = now } in
      let t2 = suspended now w.thread in
      let s1 = record s { readings = s.readings + 1; infos = write s.infos p (some t1) } in
      let s2 = record s1 { infos = write s1.infos p (some t2) } in
      let h2 = update_twice s w ws t1 t2 h refl refl in
      let s3 = record s2 { sent = (w.thread.thrid, sigusr1) ∷ s.sent } in
      let r =
        rotate s3 (record w { thread = t2 }) ws
          (record { queue = Holds-move _ s3 _ h2.queue refl refl; infos = h2.infos }) in
      record {
        elems = r.elems;
        queue = r.queue;
        infos = s2.infos;
        returns =
            rw
              (
                load_info_lem s p w.thread h.infos.0 h.infos.1,
                update_run_time_lem s1 p t1 h.infos.0 (write_self s.infos p (some t1)),
                load_info_lem s2 p t2 h.infos.0 (write_self s1.infos p (some t2)),
                more,
                r.removes,
                r.inserts,
                r.same,
              )
              refl;
        holds = record { queue = Holds-move _ _ _ r.holds.queue refl refl; infos = r.holds.infos };
      }

  -- A worker that has none.
  pub record Leaves (r : Option (Unit {0} × State)) : Type 0 where
    pub elems : Heap
    pub queue : ThreadInfoList
    pub infos : Ptr → Option ThreadInfo
    pub returns :
        r
        ≡ some (
          tt,
          record s {
            elems = elems;
            sched_queue = queue;
            infos = infos;
            sent = (w.thread.thrid, sigterm) ∷ s.sent;
            readings = s.readings + 1;
            wait_times = s.wait_times +ℤ w.thread.wait_time;
            run_times = s.run_times +ℤ (suspended now w.thread).run_time;
            completed = s.completed + 1;
          },
        )
    pub holds : Holding (record s { elems = elems; sched_queue = queue; infos = infos }) ws

  pub suspend_worker-Leaves :
      is_zero (less_one w.thread.quanta) ≡ true → Leaves (suspend_worker clock w.info s)
  unfolding suspend_worker clock_gettime pthread_kill cancel_worker add_times
  suspend_worker-Leaves done =
      let p = w.info in
      let t1 = record w.thread { suspend_time = now } in
      let t2 = suspended now w.thread in
      let s1 = record s { readings = s.readings + 1; infos = write s.infos p (some t1) } in
      let s2 = record s1 { infos = write s1.infos p (some t2) } in
      let h2 = update_twice s w ws t1 t2 h refl refl in
      let s3 = record s2 {
        sent = (w.thread.thrid, sigterm) ∷ s.sent;
        wait_times = s.wait_times +ℤ w.thread.wait_time;
        run_times = s.run_times +ℤ t2.run_time;
        completed = s.completed + 1;
      } in
      let l =
        leave s3 (record w { thread = t2 }) ws
          (record { queue = Holds-move _ s3 _ h2.queue refl refl; infos = h2.infos }) in
      let ld = load_info_lem s2 p t2 h.infos.0 (write_self s1.infos p (some t2)) in
      record {
        elems = l.elems;
        queue = l.queue;
        infos = l.infos;
        returns =
            rw
              (
                load_info_lem s p w.thread h.infos.0 h.infos.1,
                update_run_time_lem s1 p t1 h.infos.0 (write_self s.infos p (some t1)),
                ld,
                done,
                ld,
                l.leaves,
              )
              refl;
        holds = record { queue = Holds-move _ _ _ l.holds.queue refl refl; infos = l.holds.infos };
      }

  -- The head of the queue is resumed.
  pub record Resumes (r : Option (Unit {0} × State)) : Type 0 where
    pub infos : Ptr → Option ThreadInfo
    pub returns :
        r
        ≡ some (
          tt,
          record s {
            infos = infos;
            sent = (w.thread.thrid, sigusr2) ∷ s.sent;
            readings = s.readings + 1;
          },
        )
    pub holds :
        Holding (record s { infos = infos }) (record w { thread = resumed now w.thread } ∷ ws)

  pub resume_worker_lem : Resumes (resume_worker clock w.info s)
  unfolding resume_worker clock_gettime pthread_kill
  resume_worker_lem =
      let p = w.info in
      let t1 = record w.thread { resume_time = now } in
      let t2 = resumed now w.thread in
      let s1 = record s {
        readings = s.readings + 1;
        sent = (w.thread.thrid, sigusr2) ∷ s.sent;
        infos = write s.infos p (some t1);
      } in
      record {
        infos = write s1.infos p (some t2);
        returns =
            rw
              (
                load_info_lem s p w.thread h.infos.0 h.infos.1,
                update_wait_time_lem s1 p t1 h.infos.0 (write_self s.infos p (some t1)),
              )
              refl;
        holds = update_twice s w ws t1 t2 h refl refl;
      }
