-- ===== src/Paging/Count.antt =====
-- How many of the pages below a number are resident.
use unix_sys_prog.Common.{
  ℕ, zero, suc, ◌+◌, ◌<◌, ◌≤◌, ◌≡◌, refl, ◌≢◌, ◌⊎◌, ap, sym, ℕ_discrete, inl, inr, Option, some,
  none, arith, ◌==◌, if◌then◌else◌, Option-cases,
}

-- The frame in which a page is resident.
abbrev pub Mapping : Type 0
Mapping = ℕ → Option ℕ

abbrev pub weight : Option ℕ → ℕ
weight none = 0
weight (some f) = 1

weight-le : (o : Option ℕ) → weight o ≤ 1
weight-le none = omega arith
weight-le (some f) = omega arith

pub ℕ-split : (p n : ℕ) → (p ≡ n) ⊎ (p ≢ n)
ℕ-split p n = elim (ℕ_discrete p n) [ yes e ↦ inl e | no h ↦ inr h ]

pub resident : ℕ → Mapping → ℕ
resident zero m = 0
resident (suc n) m = weight (m n) + resident n m

pub resident-le : (n : ℕ) (m : Mapping) → resident n m ≤ n
unfolding resident
resident-le zero m = omega arith
resident-le (suc n) m = ground (arith, resident-le n m)

-- Only the pages below the number count.
pub resident-cong :
    (n : ℕ) (m m' : Mapping) → ((r : ℕ) → r < n → m' r ≡ m r) → resident n m' ≡ resident n m
unfolding resident
resident-cong zero m m' h = refl
resident-cong (suc n) m m' h =
    ground (arith, h n (omega arith), resident-cong n m m' (λ r lt. h r (omega arith)))

-- A change at one page changes the count by the two weights.
pub resident-change :
    (n : ℕ) (m m' : Mapping) (p : ℕ)
    → p < n
    → ((r : ℕ) → r ≢ p → m' r ≡ m r)
    → resident n m' + weight (m p) ≡ resident n m + weight (m' p)
unfolding resident
resident-change zero m m' p lt h = elim lt [ ]
resident-change (suc n) m m' p lt h = elim (ℕ-split p n) [
  | inl same ↦ omega (
    arith,
    resident-cong n m m' (λ r below. h r (omega arith)),
    ap (λ (i : ℕ). weight (m i)) same,
    ap (λ (i : ℕ). weight (m' i)) same,
  )
  | inr other ↦
      omega (arith, resident-change n m m' p (omega arith) h, ap weight (h n (λ e. other (sym e))))
]

-- One page leaves and another comes.
pub resident-move :
    (n : ℕ) (m m' : Mapping) (p q f g : ℕ)
    → p < n
    → q < n
    → m p ≡ none
    → m q ≡ some f
    → m' p ≡ some g
    → m' q ≡ none
    → ((r : ℕ) → r ≢ p → r ≢ q → m' r ≡ m r)
    → resident n m' ≡ resident n m
resident-move n m m' p q f g p_lt q_lt missing old here gone there = omega (
  arith,
  resident-change n m without q q_lt (λ r ne. ground arith),
  resident-change n without m' p p_lt (λ r ne. elim (ℕ-split r q) [
    | inl same ↦ ground arith
    | inr other ↦ ground (arith, there r ne other)
  ]),
  ap weight missing,
  ap weight old,
  ap weight here,
  without_q,
  without_p,
)
  where
    without : Mapping
    without r = if r == q then none else m r

    without_q : weight (without q) ≡ 0
    without_q = ground arith

    without_p : weight (without p) ≡ 0
    without_p = ground arith

pub resident-none : (n : ℕ) (m : Mapping) → ((r : ℕ) → m r ≡ none) → resident n m ≡ 0
unfolding resident
resident-none zero m h = refl
resident-none (suc n) m h = ground (arith, h n, resident-none n m h)

-- When the count is full, no page is missing.
pub resident-full : (n : ℕ) (m : Mapping) (p : ℕ) → n ≤ resident n m → p < n → m p ≢ none
unfolding resident
resident-full zero m p full lt missing = elim lt [ ]
resident-full (suc n) m p full lt missing = elim (ℕ-split p n) [
  | inl same ↦ omega (arith, resident-le n m, ap weight missing, ap (λ (i : ℕ). weight (m i)) same)
  | inr other ↦ resident-full n m p (omega (arith, weight-le (m n))) (omega arith) missing
]

-- When the count is positive, some page is there.
pub resident-pos :
    (n : ℕ) (m : Mapping) → 0 < resident n m → (p : ℕ) × (f : ℕ) × (p < n) × (m p ≡ some f)
unfolding resident
resident-pos zero m h = elim h [ ]
resident-pos (suc n) m h = elim (Option-cases (m n)) [
  | inl e ↦
      let (p, f, lt, found) = resident-pos n m (omega (arith, ap weight e)) in
      (p, f, omega arith, found)
  | inr (f, e) ↦ (n, f, omega arith, e)
]
