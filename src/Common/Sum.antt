-- ===== src/Common/Sum.antt =====
-- Sums of a weight over a list.
use unix_sys_prog.Common.{
  ℕ, zero, suc, ◌+◌, ◌<◌, ◌≤◌, ◌≡◌, refl, List, [], ◌∷◌, arith, length, get_or, set, replicate,
}

-- The sum of a weight over the threads.
abbrev pub sum {ℓ} : {A : Type ℓ} → (A → ℕ) → List A → ℕ
sum w [] = 0
sum w (x ∷ xs) = w x + sum w xs

pub sum-set {ℓ} :
    {A : Type ℓ} (w : A → ℕ) (xs : List A) (i : ℕ) (y d : A)
    → i < length xs
    → sum w (set xs i y) + w (get_or xs i d) ≡ sum w xs + w y
sum-set w [] i y d lt = absurd (omega arith)
sum-set w (x ∷ xs) zero y d lt = omega arith
sum-set w (x ∷ xs) (suc i) y d lt = omega (arith, sum-set w xs i y d (omega arith))

pub sum-get_or {ℓ} :
    {A : Type ℓ} (w : A → ℕ) (xs : List A) (i : ℕ) (d : A)
    → i < length xs
    → w (get_or xs i d) ≤ sum w xs
sum-get_or w [] i d lt = absurd (omega arith)
sum-get_or w (x ∷ xs) zero d lt = omega arith
sum-get_or w (x ∷ xs) (suc i) d lt = omega (arith, sum-get_or w xs i d (omega arith))

pub sum-replicate {ℓ} :
    {A : Type ℓ} (w : A → ℕ) (n : ℕ) (x : A) → w x ≡ 0 → sum w (replicate n x) ≡ 0
sum-replicate w zero x h = refl
sum-replicate w (suc n) x h = omega (arith, h, sum-replicate w n x h)

pub sum-le {ℓ} :
    {A : Type ℓ} (v w : A → ℕ) → ((x : A) → v x ≤ w x) → (xs : List A) → sum v xs ≤ sum w xs
sum-le v w le [] = omega arith
sum-le v w le (x ∷ xs) = omega (arith, le x, sum-le v w le xs)

-- The same for all members of the list but one.
pub sum-le_others {ℓ} :
    {A : Type ℓ} (v w : A → ℕ)
    → ((x : A) → v x ≤ w x)
    → (xs : List A) (i : ℕ) (d : A) → i < length xs
    → sum v xs + w (get_or xs i d) ≤ sum w xs + v (get_or xs i d)
sum-le_others v w le [] i d lt = absurd (omega arith)
sum-le_others v w le (x ∷ xs) zero d lt = omega (arith, sum-le v w le xs)
sum-le_others v w le (x ∷ xs) (suc i) d lt =
    omega (arith, le x, sum-le_others v w le xs i d (omega arith))
