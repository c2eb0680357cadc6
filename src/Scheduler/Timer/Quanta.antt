-- ===== src/Scheduler/Timer/Quanta.antt =====
-- pa4_1/scheduler.c: the quanta that the workers have left, and the signals that they are sent.
use unix_sys_prog.Common.{
  ℕ, zero, suc, ◌+◌, ◌<◌, ◌≡◌, refl, ap, false, List, [], ◌∷◌, ◌++◌, arith, ◌==◌, if◌then◌else◌,
}
use unix_sys_prog.Common.Int.{ℤ, pos, negsuc, pos_part}
use unix_sys_prog.Scheduler.Memory.{is_zero, Signal, sigusr1, sigusr2, sigterm, same_signal}
use unix_sys_prog.Scheduler.Timer.{less_one}
use unix_sys_prog.Scheduler.Timer.Queue.{Worker}

-- The quanta that workers have left, all together and for one thread.
abbrev pub slices : List Worker → ℕ
slices [] = 0
slices (w ∷ ws) = pos_part w.thread.quanta + slices ws

abbrev pub of_thread : ℕ → Worker → ℕ → ℕ
of_thread id w n = if w.thread.thrid == id then n else 0

abbrev pub slices_of : ℕ → List Worker → ℕ
slices_of id [] = 0
slices_of id (w ∷ ws) = of_thread id w (pos_part w.thread.quanta) + slices_of id ws

-- How many of the workers are the thread `id`.
abbrev pub workers_of : ℕ → List Worker → ℕ
workers_of id [] = 0
workers_of id (w ∷ ws) = of_thread id w 1 + workers_of id ws

-- Each worker has quanta left.
abbrev pub HaveQuanta : List Worker → Type 0
HaveQuanta [] = Unit
HaveQuanta (w ∷ ws) = (0 < pos_part w.thread.quanta) × HaveQuanta ws

-- How often a signal was sent to a thread.
abbrev pub signals : ℕ → Signal → List (ℕ × Signal) → ℕ
signals id g [] = 0
signals id g ((i, f) ∷ sent) =
    (if i == id then (if same_signal f g then 1 else 0) else 0) + signals id g sent

-- The queue with the head at its tail, if there is a worker behind it or it goes there.
pub snoc-cons :
    (ws : List Worker) (w : Worker) → (v : Worker) × (vs : List Worker) × (ws ++ w ∷ [] ≡ v ∷ vs)
snoc-cons [] w = (w, [], refl)
snoc-cons (v ∷ ws) w = (v, ws ++ w ∷ [], refl)

pub slices-snoc :
    (ws : List Worker) (w : Worker) → slices (ws ++ w ∷ []) ≡ slices ws + pos_part w.thread.quanta
slices-snoc [] w = omega arith
slices-snoc (v ∷ ws) w = omega (arith, slices-snoc ws w)

pub slices_of-snoc :
    (id : ℕ) (ws : List Worker) (w : Worker)
    → slices_of id (ws ++ w ∷ []) ≡ slices_of id ws + of_thread id w (pos_part w.thread.quanta)
slices_of-snoc id [] w = omega arith
slices_of-snoc id (v ∷ ws) w = omega (arith, slices_of-snoc id ws w)

pub workers_of-snoc :
    (id : ℕ) (ws : List Worker) (w : Worker)
    → workers_of id (ws ++ w ∷ []) ≡ workers_of id ws + of_thread id w 1
workers_of-snoc id [] w = omega arith
workers_of-snoc id (v ∷ ws) w = omega (arith, workers_of-snoc id ws w)

pub HaveQuanta-snoc :
    (ws : List Worker) (w : Worker)
    → HaveQuanta ws
    → 0 < pos_part w.thread.quanta
    → HaveQuanta (ws ++ w ∷ [])
HaveQuanta-snoc [] w all more = (more, tt)
HaveQuanta-snoc (v ∷ ws) w all more = (all.0, HaveQuanta-snoc ws w all.1 more)

pub less_one_lem : (q : ℤ) → 0 < pos_part q → pos_part q ≡ suc (pos_part (less_one q))
unfolding less_one
less_one_lem (pos zero) h = absurd (omega arith)
less_one_lem (pos (suc n)) h = refl
less_one_lem (negsuc n) h = absurd (omega arith)

pub less_one_pos : (q : ℤ) → 0 < pos_part q → (pos_part q == 1) ≡ false → 0 < pos_part (less_one q)
unfolding less_one
less_one_pos (pos zero) h more = absurd (omega arith)
less_one_pos (pos (suc n)) h more = ground arith
less_one_pos (negsuc n) h more = absurd (omega arith)

pub is_zero-less_one : (q : ℤ) → 0 < pos_part q → is_zero (less_one q) ≡ (pos_part q == 1)
unfolding less_one
is_zero-less_one (pos zero) h = absurd (omega arith)
is_zero-less_one (pos (suc zero)) h = refl
is_zero-less_one (pos (suc (suc n))) h = ground arith
is_zero-less_one (negsuc n) h = absurd (omega arith)

pub of_thread-suc :
    (id : ℕ) (w : Worker) (n : ℕ) → of_thread id w (suc n) ≡ of_thread id w 1 + of_thread id w n
of_thread-suc id w n = ground arith

abbrev pub is_id : ℕ → ℕ → ℕ
is_id id i = if i == id then 1 else 0

-- The two signals of an alarm, the last one first.
module _ (id i j : ℕ) (sent : List (ℕ × Signal)) where
  pub signals-resumed :
      signals id sigusr2 ((i, sigusr2) ∷ (j, sigusr1) ∷ sent) ≡ signals id sigusr2 sent + is_id id i
  signals-resumed = ground arith

  pub signals-resumed_after :
      signals id sigusr2 ((i, sigusr2) ∷ (j, sigterm) ∷ sent) ≡ signals id sigusr2 sent + is_id id i
  signals-resumed_after = ground arith

  pub signals-paused :
      signals id sigusr1 ((i, sigusr2) ∷ (j, sigusr1) ∷ sent) ≡ signals id sigusr1 sent + is_id id j
  signals-paused = ground arith

  pub signals-not_paused :
      signals id sigusr1 ((i, sigusr2) ∷ (j, sigterm) ∷ sent) ≡ signals id sigusr1 sent
  signals-not_paused = ground arith

  pub signals-ended :
      signals id sigterm ((i, sigusr2) ∷ (j, sigterm) ∷ sent) ≡ signals id sigterm sent + is_id id j
  signals-ended = ground arith

  pub signals-not_ended :
      signals id sigterm ((i, sigusr2) ∷ (j, sigusr1) ∷ sent) ≡ signals id sigterm sent
  signals-not_ended = ground arith

-- A resumed worker counts as before.
module _ (x v : Worker) (vs : List Worker) (quanta : x.thread.quanta ≡ v.thread.quanta)
    (thrid : x.thread.thrid ≡ v.thread.thrid) where
  pub resumed-slices : slices (x ∷ vs) ≡ slices (v ∷ vs)
  resumed-slices = ap (λ q. pos_part q + slices vs) quanta

  pub resumed-HaveQuanta : HaveQuanta (v ∷ vs) → HaveQuanta (x ∷ vs)
  resumed-HaveQuanta all = (rw quanta all.0, all.1)

  pub resumed-slices_of : (id : ℕ) → slices_of id (x ∷ vs) ≡ slices_of id (v ∷ vs)
  resumed-slices_of id = rw (quanta, thrid) refl

  pub resumed-of_thread : (id n : ℕ) → of_thread id x n ≡ of_thread id v n
  resumed-of_thread id n = rw thrid refl

pub slices-cons :
    (ws : List Worker) → 0 < slices ws → (v : Worker) × (vs : List Worker) × (ws ≡ v ∷ vs)
slices-cons [] h = absurd (omega arith)
slices-cons (v ∷ vs) h = (v, vs, refl)

pub slices-nil : (ws : List Worker) → HaveQuanta ws → slices ws ≡ 0 → ws ≡ []
slices-nil [] all h = refl
slices-nil (w ∷ ws) all h = absurd (omega (arith, all.0))

module _ (id i : ℕ) (sent : List (ℕ × Signal)) where
  pub signals-last_ended :
      signals id sigterm ((i, sigterm) ∷ sent) ≡ signals id sigterm sent + is_id id i
  signals-last_ended = ground arith

  pub signals-last_other :
      (signals id sigusr1 ((i, sigterm) ∷ sent) ≡ signals id sigusr1 sent)
      × (signals id sigusr2 ((i, sigterm) ∷ sent) ≡ signals id sigusr2 sent)
  signals-last_other = (ground arith, ground arith)

  pub signals-first :
      (signals id sigusr1 ((i, sigusr2) ∷ sent) ≡ signals id sigusr1 sent)
      × (signals id sigterm ((i, sigusr2) ∷ sent) ≡ signals id sigterm sent)
  signals-first = (ground arith, ground arith)
