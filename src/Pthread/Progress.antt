-- ===== src/Pthread/Progress.antt =====
-- pa3_1/pthread_1/main.cpp: the threads never block each other for good.
use unix_sys_prog.Common.Sum.{sum, sum-get_or}
use unix_sys_prog.Common.{
  ◌⊎◌, inl, inr, ℕ, suc, ◌+◌, ◌<◌, ◌≡◌, ◌≢◌, refl, ap, ◌∙◌, none, List, [], ◌∷◌, arith, length,
  get_or,
}
use unix_sys_prog.Common.Int.{pos}
use unix_sys_prog.Paging.Count.{ℕ-split}
use unix_sys_prog.Pthread.{
  Shared, sem_wait, ProducerAt, p_exit, Producer, producer_step, ConsumerAt, c_empty, consumer_step,
  System, no_producer, start, Reachable,
}
use unix_sys_prog.Pthread.Balance.{p_holds, p_slots, p_items, c_holds, c_items, c_slots, m_holds}
use unix_sys_prog.Pthread.Safety.{IsBalanced, Reachable-IsBalanced, of_producers, of_consumers}

-- A sum that is not 0 has a part that is not 0.
sum-positive {ℓ} :
    {A : Type ℓ} (w : A → ℕ) (xs : List A) (d : A)
    → sum w xs ≢ 0
    → (i : ℕ) × (i < length xs) × (w (get_or xs i d) ≢ 0)
sum-positive w [] d h = absurd (h refl)
sum-positive w (x ∷ xs) d h = elim (ℕ-split (w x) 0) [
  | inr ne ↦ (0, omega arith, ne)
  | inl z ↦
      let (i, lt, ne) = sum-positive w xs d (λ e. h (omega (arith, z, e))) in
      (suc i, omega arith, ne)
]

-- A producer can go on; a consumer can; or `main` has the mutex, and goes on to release it.
abbrev pub CanMove : System → Type 0
CanMove s =
    ((i : ℕ) × (i < length s.producers)
      × (producer_step s.shared (get_or s.producers i no_producer) ≢ none))
    ⊎ (((i : ℕ) × (i < length s.consumers)
          × (consumer_step s.shared (get_or s.consumers i c_empty) ≢ none))
        ⊎ (m_holds s.main ≡ 1))

-- Which places a thread can go on from.
holder_moves : (s : Shared) (p : Producer) → p_holds p.at ≢ 0 → producer_step s p ≢ none
unfolding producer_step
holder_moves s p h e = ground (arith, h, e)

waiter_moves :
    (s : Shared) (p : Producer) → s.mutex ≢ 0 → p_slots p.at ≢ 0 → producer_step s p ≢ none
unfolding producer_step sem_wait
waiter_moves s p free h e = ground (arith, free, h, e)

poster_moves : (s : Shared) (p : Producer) → p_items p.at ≢ 0 → producer_step s p ≢ none
unfolding producer_step
poster_moves s p h e = ground (arith, h, e)

beginner_moves :
    (s : Shared) (p : Producer)
    → s.full ≢ 0
    → p_slots p.at ≡ 0
    → p_items p.at ≡ 0
    → p.at ≢ p_exit
    → producer_step s p ≢ none
unfolding producer_step sem_wait
beginner_moves s p room a b busy e = ground (arith, room, a, b, busy, e)

taker_holds : (s : Shared) (c : ConsumerAt) → c_holds c ≢ 0 → consumer_step s c ≢ none
unfolding consumer_step
taker_holds s c h e = ground (arith, h, e)

taker_waits : (s : Shared) (c : ConsumerAt) → s.mutex ≢ 0 → c_items c ≢ 0 → consumer_step s c ≢ none
unfolding consumer_step sem_wait
taker_waits s c free h e = ground (arith, free, h, e)

taker_posts : (s : Shared) (c : ConsumerAt) → c_slots c ≢ 0 → consumer_step s c ≢ none
unfolding consumer_step
taker_posts s c h e = ground (arith, h, e)

taker_begins :
    (s : Shared) (c : ConsumerAt)
    → s.empty ≢ 0
    → c_items c ≡ 0
    → c_slots c ≡ 0
    → consumer_step s c ≢ none
unfolding consumer_step sem_wait
taker_begins s c stock a b e = ground (arith, stock, a, b, e)

-- 1 for a producer that has not returned.
abbrev busy : Producer → ℕ
busy p = elim p.at [ p_exit ↦ 0 | _ ↦ 1 ]

busy-exit : (p : Producer) → busy p ≡ 0 → p.at ≡ p_exit
busy-exit p h = ground (arith, h)

exit-busy : (p : Producer) → busy p ≢ 0 → p.at ≢ p_exit
exit-busy p h e = ground (arith, h, e)

module _ (s : System) where
  by_producer :
      (w : ProducerAt → ℕ)
      → of_producers w s ≢ 0
      → ((p : Producer) → w p.at ≢ 0 → producer_step s.shared p ≢ none)
      → CanMove s
  by_producer w some_ moves =
      let (i, lt, ne) = sum-positive (λ (p : Producer). w p.at) s.producers no_producer some_ in
      inl (i, lt, moves (get_or s.producers i no_producer) ne)

  by_consumer :
      (w : ConsumerAt → ℕ)
      → of_consumers w s ≢ 0
      → ((c : ConsumerAt) → w c ≢ 0 → consumer_step s.shared c ≢ none)
      → CanMove s
  by_consumer w some_ moves =
      let (i, lt, ne) = sum-positive w s.consumers c_empty some_ in
      inr (inl (i, lt, moves (get_or s.consumers i c_empty) ne))

  -- With the mutex taken, whoever has it goes on.
  held : of_producers p_holds s + of_consumers c_holds s + m_holds s.main ≡ 1 → CanMove s
  held one = elim (ℕ-split (of_producers p_holds s) 0) [
    | inr ne ↦ by_producer p_holds ne (holder_moves s.shared)
    | inl z ↦ elim (ℕ-split (of_consumers c_holds s) 0) [
      | inr ne ↦ by_consumer c_holds ne (taker_holds s.shared)
      | inl z' ↦ inr (inr (omega (arith, one, z, z')))
    ]
  ]

  -- With no thread under way, one begins, or all is done.
  idle :
      (capacity n : ℕ)
      → IsBalanced capacity s n
      → 0 < capacity
      → 0 < length s.consumers
      → of_producers p_slots s ≡ 0
      → of_producers p_items s ≡ 0
      → of_consumers c_items s ≡ 0
      → of_consumers c_slots s ≡ 0
      → CanMove s
        ⊎ (((j : ℕ) → j < length s.producers → (get_or s.producers j no_producer).at ≡ p_exit)
            × (n ≡ 0))
  idle capacity n b room someone a a' c c' = elim (ℕ-split n 0) [
    | inr ne ↦ inl (
        inr (
          inl (
            0,
            someone,
            taker_begins s.shared (get_or s.consumers 0 c_empty)
                (λ z. ne (omega (arith, z, b.empty, a', c)))
                (omega (arith, c, sum-get_or c_items s.consumers 0 c_empty someone))
                (omega (arith, c', sum-get_or c_slots s.consumers 0 c_empty someone)),
          )))
    | inl z ↦ elim (ℕ-split (sum busy s.producers) 0) [
      | inl none_busy ↦ inr (
        λ j lt.
            busy-exit (get_or s.producers j no_producer)
              (omega (arith, none_busy, sum-get_or busy s.producers j no_producer lt)),
        z,
      )
      | inr some_busy ↦
          let (i, lt, ne) = sum-positive busy s.producers no_producer some_busy in
          let p = get_or s.producers i no_producer in
          inl (
            inl (
              i,
              lt,
              beginner_moves s.shared p (λ e. absurd (omega (arith, e, z, b.full, a, c', room)))
                  (omega (
                    arith,
                    a,
                    sum-get_or (λ (p : Producer). p_slots p.at) s.producers i no_producer lt,
                  ))
                  (omega (
                    arith,
                    a',
                    sum-get_or (λ (p : Producer). p_items p.at) s.producers i no_producer lt,
                  ))
                  (exit-busy p ne),
            ))
    ]
  ]

  progress :
      (capacity n : ℕ)
      → IsBalanced capacity s n
      → 0 < capacity
      → 0 < length s.consumers
      → CanMove s
        ⊎ (((j : ℕ) → j < length s.producers → (get_or s.producers j no_producer).at ≡ p_exit)
            × (n ≡ 0))
  progress capacity n b room someone = elim (ℕ-split s.shared.mutex 0) [
    | inl taken ↦ inl (held (omega (arith, taken, b.mutex)))
    | inr free ↦ elim (ℕ-split (of_producers p_slots s) 0) [
      | inr ne ↦ inl (by_producer p_slots ne (λ p. waiter_moves s.shared p free))
      | inl a ↦ elim (ℕ-split (of_producers p_items s) 0) [
        | inr ne ↦ inl (by_producer p_items ne (poster_moves s.shared))
        | inl a' ↦ elim (ℕ-split (of_consumers c_items s) 0) [
          | inr ne ↦ inl (by_consumer c_items ne (λ c. taker_waits s.shared c free))
          | inl c ↦ elim (ℕ-split (of_consumers c_slots s) 0) [
            | inr ne ↦ inl (by_consumer c_slots ne (taker_posts s.shared))
            | inl c' ↦ idle capacity n b room someone a a' c c'
          ]
        ]
      ]
    ]
  ]

-- With a buffer of length above 0 and at least one consumer, no interleaving ends in a deadlock: some
-- producer or consumer can take its next step, or `main` has the mutex and can, until all producers
-- have returned and the index is 0.
pub Reachable-progress :
    (junk : List ℕ) (producers writes consumers : ℕ) (s : System)
    → 0 < length junk
    → Reachable (start junk producers writes consumers) s
    → 0 < length s.consumers
    → CanMove s
      ⊎ (((j : ℕ) → j < length s.producers → (get_or s.producers j no_producer).at ≡ p_exit)
          × (s.shared.buffer_index ≡ pos 0))
Reachable-progress junk producers writes consumers s room reach someone =
    let (n, b) = Reachable-IsBalanced junk producers writes consumers s reach in
    elim (progress s (length junk) n b room someone) [
      | inl moves ↦ inl moves
      | inr (returned, z) ↦ inr (returned, b.index ∙ ap pos z)
    ]
