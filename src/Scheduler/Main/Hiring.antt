-- ===== src/Scheduler/Main/Hiring.antt =====
-- pa4_1/scheduler.c: create_workers, when all workers enter the queue.
use unix_sys_prog.Common.{
  ℕ, ◌+◌, ◌-◌, ◌<◌, ◌≤◌, ◌≡◌, ◌≢◌, refl, false, Option, some, List, [], ◌∷◌, ◌++◌, arith, ◌==◌, ◌⊎◌,
  inl, inr, if◌then◌else◌, length,
}
use unix_sys_prog.Common.Int.{ℤ, pos_part}
use unix_sys_prog.Scheduler.Memory.{Ptr, null, State}
use unix_sys_prog.Scheduler.ThreadList.Steps.{==_of_ne}
use unix_sys_prog.Scheduler.ThreadList.Segment.{has}
use unix_sys_prog.Scheduler.Timer.Queue.{Worker, cells, has_info, has_info-snoc, Holding}
use unix_sys_prog.Scheduler.Timer.Quanta.{
  slices, slices_of, workers_of, HaveQuanta, slices-snoc, slices_of-snoc, workers_of-snoc,
  HaveQuanta-snoc,
}
use unix_sys_prog.Scheduler.Timer.Endless.{HasSpent, HasSpent-snoc_left, HasSpent-snoc_right}
use unix_sys_prog.Scheduler.Main.{System, create_workers}
use unix_sys_prog.Scheduler.Main.Entering.{
  Unchanged, Unchanged-trans, start_worker_lem, hired, create_worker_lem,
}

-- What is asked for on the command line: the quanta of all workers, and of those with the id `id`.
abbrev pub total : List ℤ → ℕ
total [] = 0
total (q ∷ qs) = pos_part q + total qs

abbrev pub total_of : System → ℕ → ℕ → List ℤ → ℕ
total_of w id i [] = 0
total_of w id i (q ∷ qs) = (if w.thrid i == id then pos_part q else 0) + total_of w id (i + 1) qs

-- How many of the workers from `i` on have the id `id`.
abbrev pub threads_of : System → ℕ → ℕ → List ℤ → ℕ
threads_of w id i [] = 0
threads_of w id i (q ∷ qs) = (if w.thrid i == id then 1 else 0) + threads_of w id (i + 1) qs

abbrev pub AllPositive : List ℤ → Type 0
AllPositive [] = Unit
AllPositive (q ∷ qs) = (0 < pos_part q) × AllPositive qs

-- Some worker is to run for no quanta, or fewer.
abbrev pub SomeSpent : List ℤ → Type 0
SomeSpent [] = ⊥
SomeSpent (q ∷ qs) = (pos_part q ≡ 0) ⊎ SomeSpent qs

-- `malloc` finds memory for `n` workers, and none of it twice.
pub record IsFresh (w : System) (n : ℕ) : Type 0 where
  pub info_real : (i : ℕ) → i < n → w.info i ≢ null
  pub item_real : (i : ℕ) → i < n → w.item i ≢ null
  pub info_apart : (i j : ℕ) → i < j → j < n → w.info j ≢ w.info i
  pub item_apart : (i j : ℕ) → i < j → j < n → w.item j ≢ w.item i

length-snoc : (ws : List Worker) (w : Worker) → length (ws ++ w ∷ []) ≡ length ws + 1
length-snoc [] w = refl
length-snoc (v ∷ ws) w = omega (arith, length-snoc ws w)

has-snoc :
    (q : Ptr) (ws : List Worker) (w : Worker)
    → has q (cells ws) ≡ false
    → (q == w.thread.le) ≡ false
    → has q (cells (ws ++ w ∷ [])) ≡ false
has-snoc q [] w out ne = ground arith
has-snoc q (v ∷ ws) w out ne = ground (arith, has-snoc q ws w)

module _ (w : System) (n : ℕ) where
  -- The memory of the workers from `i` on is not in use.
  abbrev pub Unused : ℕ → List Worker → Type 0
  Unused i ws =
      (j : ℕ)
      → i ≤ j
      → j < n
      → (has_info (w.info j) ws ≡ false) × (has (w.item j) (cells ws) ≡ false)

  pub record Hired (s : State) (ws : List Worker) (i : ℕ) (qs : List ℤ)
      (r : Option (Unit {0} × State)) : Type 0 where
    pub after : State
    pub workers : List Worker
    pub returns : r ≡ some (tt, after)
    pub holds : Holding after workers
    pub unchanged : Unchanged s after
    pub size : length workers ≡ length ws + length qs
    pub have : AllPositive qs → HaveQuanta ws → HaveQuanta workers
    pub spent : SomeSpent qs ⊎ HasSpent ws → HasSpent workers
    pub quanta : slices workers ≡ slices ws + total qs
    pub quanta_of : (id : ℕ) → slices_of id workers ≡ slices_of id ws + total_of w id i qs
    pub threads : (id : ℕ) → workers_of id workers ≡ workers_of id ws + threads_of w id i qs

  pub create_workers_lem :
      (qs : List ℤ) (i : ℕ) (s : State) (ws : List Worker)
      → IsFresh w n
      → Holding s ws
      → Unused i ws
      → i + length qs ≤ n
      → length qs ≤ s.queue_sem
      → Hired s ws i qs (create_workers w i qs s)
  unfolding create_workers
  create_workers_lem [] i s ws fresh h unused fits room = record {
    after = s;
    workers = ws;
    returns = refl;
    holds = h;
    unchanged = record {
      current = refl;
      quit = refl;
      completed = refl;
      thread_count = refl;
      sent = refl;
    };
    size = omega arith;
    have = λ all have. have;
    spent = λ h. elim h [ inl none_there ↦ absurd none_there | inr h' ↦ h' ];
    quanta = omega arith;
    quanta_of = λ id. omega arith;
    threads = λ id. omega arith;
  }
  create_workers_lem (q ∷ qs) i s ws fresh h unused fits room =
      let real = fresh.info_real i (omega arith) in
      let (out, out') = unused i (omega arith) (omega arith) in
      let (t, made, h', held, sem, same) = create_worker_lem w s ws i q h real out in
      let e =
        start_worker_lem t ws (w.info i) (w.item i) (hired w i q s.readings) (t.queue_sem - 1) h'
          real (fresh.item_real i (omega arith)) out out' held (omega (arith, sem)) in
      let x : Worker = record {
        info = w.info i;
        thread = record (hired w i q s.readings) { le = w.item i };
      } in
      let unused' : Unused (i + 1) (ws ++ x ∷ []) = λ j le lt. (
        has_info-snoc (w.info j) ws x (unused j (omega arith) lt).0
            (==_of_ne (fresh.info_apart i j (omega arith) lt)),
        has-snoc (w.item j) ws x (unused j (omega arith) lt).1
            (==_of_ne (fresh.item_apart i j (omega arith) lt)),
      ) in
      let r =
        create_workers_lem qs (i + 1) e.after (ws ++ x ∷ []) fresh e.holds unused' (omega arith)
          (omega (arith, sem, e.sem)) in
      record {
        after = r.after;
        workers = r.workers;
        returns = rw (made, e.returns) r.returns;
        holds = r.holds;
        unchanged =
            Unchanged-trans t r.after same
              (Unchanged-trans e.after r.after e.unchanged r.unchanged);
        size = omega (arith, r.size, length-snoc ws x);
        have = λ all have. r.have all.1 (HaveQuanta-snoc ws x have all.0);
        spent = λ h. elim h [
          | inl (inl now) ↦ r.spent (inr (HasSpent-snoc_right ws x now))
          | inl (inr later) ↦ r.spent (inl later)
          | inr before ↦ r.spent (inr (HasSpent-snoc_left ws x before))
        ];
        quanta = omega (arith, r.quanta, slices-snoc ws x);
        quanta_of = λ id. omega (arith, r.quanta_of id, slices_of-snoc id ws x);
        threads = λ id. omega (arith, r.threads id, workers_of-snoc id ws x);
      }
