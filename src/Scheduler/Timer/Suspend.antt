-- ===== src/Scheduler/Timer/Suspend.antt =====
-- pa4_1/scheduler.c: what suspend_worker does to the worker at the head of the queue.
use unix_sys_prog.Common.{◌≡◌, refl, Option, none, some, List, [], ◌∷◌, ◌++◌}
use unix_sys_prog.Common.Int.{pos}
use unix_sys_prog.Scheduler.Memory.{
  Ptr, null, ThreadInfoList, ThreadInfo, State, write, free_elem, free_info,
}
use unix_sys_prog.Scheduler.ThreadList.{sched_queue, list_remove, list_insert_tail}
use unix_sys_prog.Scheduler.ThreadList.Steps.{write_self, load_lem}
use unix_sys_prog.Scheduler.ThreadList.Segment.{Heap, elem, Linked-write}
use unix_sys_prog.Scheduler.ThreadList.Inserting.{list_insert_tail_lem}
use unix_sys_prog.Scheduler.ThreadList.Removing.{list_remove_lem}
use unix_sys_prog.Scheduler.Worker.{leave_scheduler_queue}
use unix_sys_prog.Scheduler.Timer.Queue.{
  Worker, cells, cells-append, Holding, Infos-write, Infos-snoc, Holds-move, load_info_lem,
}

-- The head of the queue moves to its tail.
pub record Rotated (s : State) (w : Worker) (ws : List Worker) : Type 0 where
  pub middle : State
  pub after : State
  pub removes : list_remove sched_queue w.thread.le s ≡ some (pos 0, middle)
  pub inserts : list_insert_tail sched_queue w.thread.le middle ≡ some (pos 0, after)
  pub elems : Heap
  pub queue : ThreadInfoList
  pub same : after ≡ record s { elems = elems; sched_queue = queue }
  pub holds : Holding (record s { elems = elems; sched_queue = queue }) (ws ++ w ∷ [])

pub rotate : (s : State) (w : Worker) (ws : List Worker) → Holding s (w ∷ ws) → Rotated s w ws
rotate s w ws h =
    let p = w.thread.le in
    let r = list_remove_lem s [] p w.info (cells ws) h.queue in
    let s1 = record s { elems = r.becomes.elems; sched_queue = r.becomes.queue } in
    let i =
      list_insert_tail_lem s1 p (elem null null w.info) (cells ws) r.becomes.holds r.unlinked
        h.queue.linked.0 h.queue.distinct.0 in
    record {
      middle = s1;
      after = record s1 { elems = i.elems; sched_queue = i.queue };
      removes = r.becomes.returns;
      inserts = i.returns;
      elems = i.elems;
      queue = i.queue;
      same = refl;
      holds = record {
        queue = rw (cells-append ws (w ∷ [])) i.holds;
        infos = Infos-snoc s.infos ws w h.infos.3 h.infos.0 h.infos.1 h.infos.2;
      };
    }

-- The head of the queue leaves it, and its memory is freed.
pub record Left (s : State) (w : Worker) (ws : List Worker) : Type 0 where
  pub elems : Heap
  pub queue : ThreadInfoList
  pub infos : Ptr → Option ThreadInfo
  pub leaves :
      leave_scheduler_queue w.info s
      ≡ some (tt, record s { elems = elems; sched_queue = queue; infos = infos })
  pub holds : Holding (record s { elems = elems; sched_queue = queue; infos = infos }) ws

pub leave : (s : State) (w : Worker) (ws : List Worker) → Holding s (w ∷ ws) → Left s w ws
unfolding leave_scheduler_queue free_elem free_info
leave s w ws h =
    let p = w.thread.le in
    let r = list_remove_lem s [] p w.info (cells ws) h.queue in
    let s1 = record s { elems = r.becomes.elems; sched_queue = r.becomes.queue } in
    let e2 = write r.becomes.elems p none in
    let s2 = record s1 { elems = e2 } in
    let held = r.becomes.holds in
    record {
      elems = e2;
      queue = r.becomes.queue;
      infos = write s.infos w.info none;
      leaves =
          rw
            (
              load_info_lem s w.info w.thread h.infos.0 h.infos.1,
              r.becomes.returns,
              load_lem s1 h.queue.linked.0 r.unlinked,
              load_info_lem s2 w.info w.thread h.infos.0 h.infos.1,
            )
            refl;
      holds = record {
        queue = record {
          head = held.head;
          tail = held.tail;
          lock = held.lock;
          linked =
              Linked-write r.becomes.elems null null p none (cells ws) h.queue.distinct.0
                held.linked;
          distinct = held.distinct;
        };
        infos = Infos-write s.infos w.info none ws h.infos.2 h.infos.3;
      };
    }

-- The thread info of the head is written.
pub update :
    (s : State) (w : Worker) (ws : List Worker) (t : ThreadInfo)
    → Holding s (w ∷ ws)
    → t.le ≡ w.thread.le
    → Holding (record s { infos = write s.infos w.info (some t) }) (record w { thread = t } ∷ ws)
update s w ws t h same = record {
  queue = Holds-move s _ _ (rw same h.queue) refl refl;
  infos = (
    h.infos.0,
    write_self s.infos w.info (some t),
    h.infos.2,
    Infos-write s.infos w.info (some t) ws h.infos.2 h.infos.3,
  );
}
