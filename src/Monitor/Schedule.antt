-- ===== src/Monitor/Schedule.antt =====
-- pa2_2/proc_con: an interleaving as a list of turns, to run it.
use unix_sys_prog.Common.{
  inl, inr, ℕ, ◌≡◌, subst, Option, some, none, List, [], ◌∷◌, arith, length, get_or, set, ltb,
  ltb→lt, if◌then◌else◌, Bool-cases, Option-cases,
}
use unix_sys_prog.Monitor.System.{
  producer_step, no_consumer, consumer_step, main_step, System, no_producer, Step, producer_moves,
  consumer_moves, main_moves, Reachable, later,
}

pub data Turn : Type 0 where
  producer consumer : ℕ → Turn
  main_turn : Turn

-- The state after a turn; none for a thread that is not there or cannot move.
unfoldable pub take_turn : ℕ → System → Turn → Option System
take_turn junk s (producer i) =
    if ltb i (length s.producers)
    then elim (producer_step s.shared (get_or s.producers i no_producer)) [
      | none ↦ none
      | some (shared, p) ↦ some (record s { shared = shared; producers = set s.producers i p })
    ]
    else none
take_turn junk s (consumer i) =
    if ltb i (length s.consumers)
    then elim (consumer_step junk s.shared (get_or s.consumers i no_consumer)) [
      | none ↦ none
      | some (shared, c) ↦ some (record s { shared = shared; consumers = set s.consumers i c })
    ]
    else none
take_turn junk s main_turn = elim (main_step s) [
  | none ↦ none
  | some (shared, m) ↦ some (record s { shared = shared; main = m })
]

unfoldable pub take_turns : ℕ → System → List Turn → Option System
take_turns junk s [] = some s
take_turns junk s (t ∷ turns) = elim (take_turn junk s t) [
  | none ↦ none
  | some s' ↦ take_turns junk s' turns
]

take_turn-Step :
    (junk : ℕ) (s s' : System) (t : Turn) → take_turn junk s t ≡ some s' → Step junk s s'
unfolding take_turn
take_turn-Step junk s s' (producer i) e = elim (Bool-cases (ltb i (length s.producers))) [
  | inr out ↦ absurd (ground (arith, e, out))
  | inl lt ↦ elim (Option-cases (producer_step s.shared (get_or s.producers i no_producer))) [
    | inl blocked ↦ absurd (ground (arith, e, lt, blocked))
    | inr ((shared, p), moved) ↦
        let same : record s { shared = shared; producers = set s.producers i p } ≡ s' =
          ground (arith, e, lt, moved) in
        subst (Step junk s) same
          (producer_moves s i shared p (ltb→lt i (length s.producers) lt) moved)
  ]
]
take_turn-Step junk s s' (consumer i) e = elim (Bool-cases (ltb i (length s.consumers))) [
  | inr out ↦ absurd (ground (arith, e, out))
  | inl lt ↦ elim (Option-cases (consumer_step junk s.shared (get_or s.consumers i no_consumer))) [
    | inl blocked ↦ absurd (ground (arith, e, lt, blocked))
    | inr ((shared, c), moved) ↦
        let same : record s { shared = shared; consumers = set s.consumers i c } ≡ s' =
          ground (arith, e, lt, moved) in
        subst (Step junk s) same
          (consumer_moves s i shared c (ltb→lt i (length s.consumers) lt) moved)
  ]
]
take_turn-Step junk s s' main_turn e = elim (Option-cases (main_step s)) [
  | inl blocked ↦ absurd (ground (arith, e, blocked))
  | inr ((shared, m), moved) ↦
      let same : record s { shared = shared; main = m } ≡ s' = ground (arith, e, moved) in
      subst (Step junk s) same (main_moves s shared m moved)
]

-- A run reaches its last state.
pub take_turns-Reachable :
    (junk : ℕ) (turns : List Turn) (from s s' : System)
    → Reachable junk from s
    → take_turns junk s turns ≡ some s'
    → Reachable junk from s'
unfolding take_turns
take_turns-Reachable junk [] from s s' reach e =
    let same : s ≡ s' = ground (arith, e) in subst (Reachable junk from) same reach
take_turns-Reachable junk (t ∷ turns) from s s' reach e = elim (Option-cases (take_turn junk s t)) [
  | inl blocked ↦ absurd (ground (arith, e, blocked))
  | inr (s1, moved) ↦
      take_turns-Reachable junk turns from s1 s'
        (later s s1 reach (take_turn-Step junk s s1 t moved)) (ground (arith, e, moved))
]
