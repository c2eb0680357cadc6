-- ===== src/Scheduler/Main/Entering.antt =====
-- pa4_1/worker.c and scheduler.c: the workers enter the queue.
use unix_sys_prog.Common.{
  ℕ, suc, ◌+◌, ◌≡◌, ◌≢◌, refl, ◌∙◌, false, Option, some, List, [], ◌∷◌, ◌++◌,
}
use unix_sys_prog.Common.Int.{ℤ}
use unix_sys_prog.Scheduler.Memory.{Ptr, null, ThreadInfo, State, write}
use unix_sys_prog.Scheduler.ThreadList.Steps.{write_self}
use unix_sys_prog.Scheduler.ThreadList.Segment.{has, elem, Linked-write}
use unix_sys_prog.Scheduler.ThreadList.Inserting.{list_insert_tail_lem}
use unix_sys_prog.Scheduler.Worker.{sem_wait_queue, enter_scheduler_queue, start_worker}
use unix_sys_prog.Scheduler.Timer.{clock_gettime}
use unix_sys_prog.Scheduler.Timer.Queue.{
  Worker, cells, cells-append, has_info, Infos-write, Infos-snoc, Holding, Holds-move,
  load_info_lem,
}
use unix_sys_prog.Scheduler.Main.{System, create_worker}

-- What the entries of workers leave alone.
pub record Unchanged (s t : State) : Type 0 where
  pub current : t.current_thread ≡ s.current_thread
  pub quit : t.quit ≡ s.quit
  pub completed : t.completed ≡ s.completed
  pub thread_count : t.thread_count ≡ s.thread_count
  pub sent : t.sent ≡ s.sent

pub Unchanged-trans : {s : State} (t u : State) → Unchanged s t → Unchanged t u → Unchanged s u
Unchanged-trans t u a b = record {
  current = b.current ∙ a.current;
  quit = b.quit ∙ a.quit;
  completed = b.completed ∙ a.completed;
  thread_count = b.thread_count ∙ a.thread_count;
  sent = b.sent ∙ a.sent;
}

-- A write to the elements outside of the list.
Holding-elem :
    (s : State) (ws : List Worker) (p : Ptr) (t : ThreadInfo) (q : Ptr) (n : ℕ)
    → Holding s ws
    → has_info p ws ≡ false
    → has q (cells ws) ≡ false
    → Holding
        (record s {
          queue_sem = n;
          infos = write s.infos p (some t);
          elems = write s.elems q (some (elem null null p));
        })
        ws
Holding-elem s ws p t q n h out out' = record {
  queue = record {
    head = h.queue.head;
    tail = h.queue.tail;
    lock = h.queue.lock;
    linked =
        Linked-write s.elems null null q (some (elem null null p)) (cells ws) out' h.queue.linked;
    distinct = h.queue.distinct;
  };
  infos = Infos-write s.infos p (some t) ws out h.infos;
}

sem_wait_lem :
    (s : State) (n : ℕ)
    → s.queue_sem ≡ suc n
    → sem_wait_queue s ≡ some (tt, record s { queue_sem = n })
unfolding sem_wait_queue
sem_wait_lem s n room = rw room refl

-- A worker enters the queue.
pub record Entered (s : State) (ws : List Worker) (w : Worker) (n : ℕ)
    (r : Option (Unit {0} × State)) : Type 0 where
  pub after : State
  pub returns : r ≡ some (tt, after)
  pub holds : Holding after (ws ++ w ∷ [])
  pub sem : after.queue_sem ≡ n
  pub unchanged : Unchanged s after

pub start_worker_lem :
    (s : State) (ws : List Worker) (p item : Ptr) (t : ThreadInfo) (n : ℕ)
    → Holding s ws
    → p ≢ null
    → item ≢ null
    → has_info p ws ≡ false
    → has item (cells ws) ≡ false
    → s.infos p ≡ some t
    → s.queue_sem ≡ suc n
    → Entered s ws (record { info = p; thread = record t { le = item } }) n (start_worker item p s)
unfolding start_worker enter_scheduler_queue
start_worker_lem s ws p item t n h real real' out out' held room =
    let w : Worker = record { info = p; thread = record t { le = item } } in
    let s1 = record s { queue_sem = n } in
    let s2 = record s1 {
      infos = write s.infos p (some w.thread);
      elems = write s.elems item (some (elem null null p));
    } in
    let h2 = Holding-elem s ws p w.thread item n h out out' in
    let i =
      list_insert_tail_lem s2 item (elem null null p) (cells ws) h2.queue
        (write_self s.elems item (some (elem null null p))) real' out' in
    let s3 = record s2 { elems = i.elems; sched_queue = i.queue } in
    record {
      after = s3;
      returns = rw (sem_wait_lem s n room, load_info_lem s1 p t real held, i.returns) refl;
      holds = record {
        queue = rw (cells-append ws (w ∷ [])) i.holds;
        infos = Infos-snoc s2.infos ws w h2.infos real (write_self s.infos p (some w.thread)) out;
      };
      sem = refl;
      unchanged = record {
        current = refl;
        quit = refl;
        completed = refl;
        thread_count = refl;
        sent = refl;
      };
    }

-- The thread info that `main` leaves for the worker `i`, when the clock has been read `c` times.
abbrev pub hired : System → ℕ → ℤ → ℕ → ThreadInfo
hired w i q c = record {
  thrid = w.thrid i;
  quanta = q;
  le = (w.junk i).le;
  suspend_time = w.clock (c + 1);
  resume_time = w.clock c;
  wait_time = (w.junk i).wait_time;
  run_time = (w.junk i).run_time;
}

module _ (w : System) where
  pub create_worker_lem :
      (s : State) (ws : List Worker) (i : ℕ) (q : ℤ)
      → Holding s ws
      → w.info i ≢ null
      → has_info (w.info i) ws ≡ false
      → (t : State) × (create_worker w i q s ≡ some (tt, t))
        × Holding t ws
        × (t.infos (w.info i) ≡ some (hired w i q s.readings))
        × (t.queue_sem ≡ s.queue_sem)
        × Unchanged s t
  unfolding create_worker clock_gettime
  create_worker_lem s ws i q h real out =
      let p = w.info i in
      let t0 = record (w.junk i) { quanta = q; thrid = w.thrid i } in
      let t1 = record t0 { resume_time = w.clock s.readings } in
      let h0 = write s.infos p (some t0) in
      let h1 = write h0 p (some t1) in
      let s1 = record s { infos = h0; readings = s.readings + 1 } in
      let s2 = record s { infos = h1; readings = s.readings + 1 + 1 } in
      let h2 = write h1 p (some (hired w i q s.readings)) in
      let s3 = record s2 { infos = h2 } in
      (
        s3,
        rw
            (
              load_info_lem s1 p t0 real (write_self s.infos p (some t0)),
              load_info_lem s2 p t1 real (write_self h0 p (some t1)),
            )
            refl,
        record {
          queue = Holds-move s s3 _ h.queue refl refl;
          infos =
              Infos-write h1 p _ ws out
                (Infos-write h0 p _ ws out (Infos-write s.infos p _ ws out h.infos));
        },
        write_self h1 p _,
        refl,
        record { current = refl; quit = refl; completed = refl; thread_count = refl; sent = refl },
      )
