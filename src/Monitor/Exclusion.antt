-- ===== src/Monitor/Exclusion.antt =====
-- pa2_2/proc_con: how many threads are in the monitor, and how many of them in the wrong phase.
use unix_sys_prog.Common.Sum.{sum, sum-set, sum-get_or, sum-le_others}
use unix_sys_prog.Common.{
  ℕ, ◌+◌, ◌<◌, ◌≤◌, ◌≡◌, refl, ap, ◌∙◌, true, List, arith, length, get_or, set, ◌⊎◌, inl, inr,
}
use unix_sys_prog.Monitor.{Shared}
use unix_sys_prog.Monitor.Phase.{
  Phase, is_rest, Place, inside, wrong, Moves, outside, before_test, within,
}

pub wrong-inside : (ph : Phase) (p : Place) → wrong ph p ≤ inside p
wrong-inside ph p = ground arith

-- What a thread's step, number `i` of `xs`, does to the counts of all threads. `rest` and `others` count
-- the threads of the other kind.
pub record Counted {A : Type 0} (place : A → Place) (xs : List A) (rest : Phase → ℕ) (others : ℕ)
    (s : Shared) (ph : Phase) : Type 0 where
  pub mutex : s.monitor_mutex + sum (λ x. inside (place x)) xs + others ≡ 1
  pub right : sum (λ x. wrong ph (place x)) xs + rest ph ≡ 0
  pub calm : 0 < s.monitor_mutex → is_rest ph ≡ true

inside-cases : (p : Place) → (inside p ≡ 0) ⊎ (inside p ≡ 1)
inside-cases outside = inl refl
inside-cases before_test = inr refl
inside-cases (within ph) = inr refl

pub set-Counted :
    {A : Type 0} (place : A → Place) (xs : List A) (rest : Phase → ℕ) (others : ℕ) (s s' : Shared)
    (ph : Phase) (i : ℕ) (d y : A)
    → i < length xs
    → ((a : Phase) → rest a ≤ others)
    → Counted place xs rest others s ph
    → (m : Moves s s' (place (get_or xs i d)) (place y) ph)
    → Counted place (set xs i y) rest others s' m.after
set-Counted place xs rest others s s' ph i d y lt le c m =
    let ins = sum-set (λ x. inside (place x)) xs i y d lt in
    let wro = sum-set (λ x. wrong m.after (place x)) xs i y d lt in
    elim (inside-cases (place (get_or xs i d))) [
      | inl out ↦ record {
        mutex = omega (arith, ins, c.mutex, m.mutex);
        right = omega (
          arith,
          wro,
          m.right,
          c.right,
          ap rest (m.alone out),
          ap (λ a. sum (λ x. wrong a (place x)) xs) (m.alone out),
        );
        calm = λ free. ap is_rest (m.alone out) ∙ c.calm (omega (arith, m.mutex, out));
      }
      | inr held ↦ record {
        mutex = omega (arith, ins, c.mutex, m.mutex);
        right = omega (
          arith,
          wro,
          m.right,
          c.mutex,
          held,
          le m.after,
          sum-get_or (λ x. inside (place x)) xs i d lt,
          sum-le_others (λ x. wrong m.after (place x)) (λ x. inside (place x))
              (λ x. wrong-inside m.after (place x)) xs i d lt,
        );
        calm = λ free.
            m.leaves held
              (omega (arith, m.mutex, c.mutex, held, sum-get_or (λ x. inside (place x)) xs i d lt));
      }
    ]
