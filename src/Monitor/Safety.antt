-- ===== src/Monitor/Safety.antt =====
-- pa2_2/proc_con: the invariant of the monitor, over any interleaving.
use unix_sys_prog.Monitor.Exclusion.{set-Counted, wrong-inside}
use unix_sys_prog.Monitor.Threads.{producer_step-Moves, consumer_step-Moves, main_step-Keeps}
use unix_sys_prog.Common.Sum.{sum, sum-get_or, sum-replicate, sum-le}
use unix_sys_prog.Common.{
  ℕ, ◌+◌, ◌<◌, ◌≤◌, ◌≡◌, refl, sym, ap, ◌∙◌, true, List, [], ◌∷◌, arith, length, get_or, map, ◌⊎◌,
  inl, inr, subst,
}
use unix_sys_prog.Common.Int.{pos, negsuc}
use unix_sys_prog.Monitor.{monitor_init}
use unix_sys_prog.Monitor.Insert.{i_enter, i_write}
use unix_sys_prog.Monitor.Remove.{r_read}
use unix_sys_prog.Monitor.Phase.{
  Phase, empty, index, is_rest, insert_place, remove_place, inside, wrong, In, within, inserted,
  cleared, full, removed, opened,
}
use unix_sys_prog.Monitor.System.{
  Producer, Consumer, System, no_producer, no_consumer, Step, producer_moves, consumer_moves,
  main_moves, start, Reachable, here, later,
}

-- The monitor between two steps, with `buffer` in it.
pub record Sound (buffer : List ℕ) (s : System) (ph : Phase) : Type 0 where
  pub flags : In ph s.shared
  pub mutex :
      s.shared.monitor_mutex
        + sum (λ (p : Producer). inside (insert_place p.at)) s.producers
        + sum (λ (c : Consumer). inside (remove_place c.at)) s.consumers
      ≡ 1
  pub right :
      sum (λ (p : Producer). wrong ph (insert_place p.at)) s.producers
        + sum (λ (c : Consumer). wrong ph (remove_place c.at)) s.consumers
      ≡ 0
  pub calm : 0 < s.shared.monitor_mutex → is_rest ph ≡ true
  pub kept : s.shared.buffer ≡ buffer

Step-Sound :
    (buffer : List ℕ) (junk : ℕ) (s s' : System) (ph : Phase)
    → Sound buffer s ph
    → Step junk s s'
    → (ph' : Phase) × Sound buffer s' ph'
Step-Sound buffer junk _ s' ph b (producer_moves s i shared p lt e) =
    let q = get_or s.producers i no_producer in
    let m =
      producer_step-Moves s.shared shared q.at p.at q.chars p.chars ph b.flags
        (omega (
          arith,
          b.right,
          sum-get_or (λ (p : Producer). wrong ph (insert_place p.at)) s.producers i no_producer lt,
        ))
        b.calm e in
    let c =
      set-Counted (λ (p : Producer). insert_place p.at) s.producers
        (λ a. sum (λ (c : Consumer). wrong a (remove_place c.at)) s.consumers)
        (sum (λ (c : Consumer). inside (remove_place c.at)) s.consumers) s.shared shared ph i
        no_producer p lt
        (λ a.
          sum-le (λ (c : Consumer). wrong a (remove_place c.at)) (λ c. inside (remove_place c.at))
            (λ c. wrong-inside a (remove_place c.at)) s.consumers)
        (record { mutex = b.mutex; right = b.right; calm = b.calm }) m in
    (
      m.after,
      record {
        flags = m.flags;
        mutex = c.mutex;
        right = c.right;
        calm = c.calm;
        kept = m.buffer ∙ b.kept;
      },
    )
Step-Sound buffer junk _ s' ph b (consumer_moves s i shared p lt e) =
    let q = get_or s.consumers i no_consumer in
    let m =
      consumer_step-Moves junk s.shared shared q.ch p.ch q.at p.at q.returned p.returned ph b.flags
        (omega (
          arith,
          b.right,
          sum-get_or (λ (c : Consumer). wrong ph (remove_place c.at)) s.consumers i no_consumer lt,
        ))
        b.calm e in
    let c =
      set-Counted (λ (c : Consumer). remove_place c.at) s.consumers
        (λ a. sum (λ (p : Producer). wrong a (insert_place p.at)) s.producers)
        (sum (λ (p : Producer). inside (insert_place p.at)) s.producers) s.shared shared ph i
        no_consumer p lt
        (λ a.
          sum-le (λ (p : Producer). wrong a (insert_place p.at)) (λ p. inside (insert_place p.at))
            (λ p. wrong-inside a (insert_place p.at)) s.producers)
        (record { mutex = omega (arith, b.mutex); right = omega (arith, b.right); calm = b.calm })
        m in
    (
      m.after,
      record {
        flags = m.flags;
        mutex = omega (arith, c.mutex);
        right = omega (arith, c.right);
        calm = c.calm;
        kept = m.buffer ∙ b.kept;
      },
    )
Step-Sound buffer junk _ s' ph b (main_moves s shared m e) =
    let k = main_step-Keeps s shared m e in
    (
      ph,
      record {
        flags = record {
          at_index = k.index ∙ b.flags.at_index;
          empty_flag = k.empty ∙ b.flags.empty_flag;
          full_flag = k.full ∙ b.flags.full_flag;
        };
        mutex = omega (arith, b.mutex, k.mutex);
        right = b.right;
        calm = λ free. b.calm (omega (arith, k.mutex, free));
        kept = k.buffer ∙ b.kept;
      },
    )

sum-new_producers :
    (w : Producer → ℕ) (chars : List (List ℕ))
    → ((cs : List ℕ) → w (record { at = i_enter; chars = cs }) ≡ 0)
    → sum w (map (λ cs. record { at = i_enter; chars = cs }) chars) ≡ 0
sum-new_producers w [] nil = refl
sum-new_producers w (cs ∷ rest) nil = omega (arith, nil cs, sum-new_producers w rest nil)

start-Sound :
    (buffer : List ℕ) (chars : List (List ℕ)) (consumers : ℕ)
    → Sound buffer (start buffer chars consumers) empty
unfolding start monitor_init
start-Sound buffer chars consumers = record {
  flags = record { at_index = refl; empty_flag = refl; full_flag = refl };
  mutex = omega (
    arith,
    sum-new_producers (λ p. inside (insert_place p.at)) chars (λ cs. refl),
    sum-replicate (λ (c : Consumer). inside (remove_place c.at)) consumers no_consumer refl,
  );
  right = omega (
    arith,
    sum-new_producers (λ p. wrong empty (insert_place p.at)) chars (λ cs. refl),
    sum-replicate (λ (c : Consumer). wrong empty (remove_place c.at)) consumers no_consumer refl,
  );
  calm = λ free. refl;
  kept = refl;
}

pub Reachable-Sound :
    (junk : ℕ) (buffer : List ℕ) (chars : List (List ℕ)) (consumers : ℕ) (s : System)
    → Reachable junk (start buffer chars consumers) s
    → (ph : Phase) × Sound buffer s ph
Reachable-Sound junk buffer chars consumers s here = (empty, start-Sound buffer chars consumers)
Reachable-Sound junk buffer chars consumers _ (later t s before step) =
    let (ph, b) = Reachable-Sound junk buffer chars consumers t before in
    Step-Sound buffer junk t s ph b step

pub writing-phase : (ph : Phase) → wrong ph (within empty) ≡ 0 → index ph ≡ negsuc 0
writing-phase ph right = ground arith

pub reading-phase : (ph : Phase) → wrong ph (within full) ≡ 0 → index ph ≡ pos 0
reading-phase ph right = ground arith

phase-index : (ph : Phase) → (index ph ≡ negsuc 0) ⊎ (index ph ≡ pos 0)
phase-index empty = inl refl
phase-index inserted = inr refl
phase-index cleared = inr refl
phase-index full = inr refl
phase-index removed = inl refl
phase-index opened = inl refl

-- The monitor serves one thread at a time, and the index goes between −1 and 0.
pub record IsExclusive (s : System) : Type 0 where
  pub one :
      sum (λ (p : Producer). inside (insert_place p.at)) s.producers
        + sum (λ (c : Consumer). inside (remove_place c.at)) s.consumers
      ≤ 1
  pub range : (s.shared.buffer_index ≡ negsuc 0) ⊎ (s.shared.buffer_index ≡ pos 0)
  pub writes :
      (i : ℕ)
      → i < length s.producers
      → (get_or s.producers i no_producer).at ≡ i_write
      → s.shared.buffer_index ≡ negsuc 0
  pub reads :
      (i : ℕ)
      → i < length s.consumers
      → (get_or s.consumers i no_consumer).at ≡ r_read
      → s.shared.buffer_index ≡ pos 0

-- In every state that any interleaving of the threads leads to, at most one thread is between its wait
-- for the mutex of the monitor and its release, the index of the buffer is −1 or 0, a producer that is
-- about to write finds it at −1, and a consumer that is about to read finds it at 0.
pub Reachable-IsExclusive :
    (junk : ℕ) (buffer : List ℕ) (chars : List (List ℕ)) (consumers : ℕ) (s : System)
    → Reachable junk (start buffer chars consumers) s
    → IsExclusive s
Reachable-IsExclusive junk buffer chars consumers s reach =
    let (ph, b) = Reachable-Sound junk buffer chars consumers s reach in
    record {
      one = omega (arith, b.mutex);
      range = subst (λ z. (z ≡ negsuc 0) ⊎ (z ≡ pos 0)) (sym b.flags.at_index) (phase-index ph);
      writes = λ i lt at.
          b.flags.at_index
          ∙ writing-phase ph (
              omega (
                arith,
                b.right,
                ap (λ a. wrong ph (insert_place a)) at,
                sum-get_or (λ (p : Producer). wrong ph (insert_place p.at)) s.producers i
                    no_producer lt,
              ));
      reads = λ i lt at.
          b.flags.at_index
          ∙ reading-phase ph (
              omega (
                arith,
                b.right,
                ap (λ a. wrong ph (remove_place a)) at,
                sum-get_or (λ (c : Consumer). wrong ph (remove_place c.at)) s.consumers i
                    no_consumer lt,
              ));
    }
