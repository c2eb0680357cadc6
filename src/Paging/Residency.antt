-- ===== src/Paging/Residency.antt =====
-- What holds of the resident pages when `k` frames are in use, and how loading a page keeps it.
use unix_sys_prog.Common.{
  ℕ, ◌+◌, ◌<◌, ◌≤◌, ◌≡◌, ◌≢◌, ◌⊎◌, inl, inr, sym, ap, ◌∙◌, some, none, List, [], arith, length,
  get_or, set, get_or-set_self, get_or-set_ne, length-set,
}
use unix_sys_prog.Paging.Count.{
  Mapping, weight, resident, resident-change, resident-move, resident-cong, resident-none, ℕ-split,
}

abbrev pub Bytes : Type 0
Bytes = List ℕ

-- `block p` is the content of page `p` in the backing store.
pub record IsResident (block : ℕ → Bytes) (k : ℕ) (m : Mapping) (frames : List Bytes) : Type 0 where
  pub bound : (p f : ℕ) → m p ≡ some f → f < k
  pub distinct : (p q f : ℕ) → m p ≡ some f → m q ≡ some f → p ≡ q
  pub content : (p f : ℕ) → m p ≡ some f → get_or frames f [] ≡ block p
  pub counted : resident 256 m ≡ k
  pub size : length frames ≡ 256

pub some_eq : {a b : ℕ} → some a ≡ some b → a ≡ b
some_eq h = cc

pub none-ne-some : {a : ℕ} → none ≡ some a → ⊥
none-ne-some h = cc

-- A page of the new mapping is the new one, or an old one.
new_or_old :
    (m m' : Mapping) (p g : ℕ)
    → m' p ≡ some g
    → ((r : ℕ) → r ≢ p → (m' r ≡ m r) ⊎ (m' r ≡ none))
    → (r f : ℕ) → m' r ≡ some f
    → ((r ≡ p) × (f ≡ g)) ⊎ ((r ≢ p) × (m r ≡ some f))
new_or_old m m' p g here there r f e = elim (ℕ-split r p) [
  | inl same ↦ inl (same, some_eq (sym e ∙ ap m' same ∙ here))
  | inr other ↦ elim (there r other) [
    | inl kept ↦ inr (other, sym kept ∙ e)
    | inr gone ↦ absurd (none-ne-some (sym gone ∙ e))
  ]
]

module _ {block : ℕ → Bytes} {k : ℕ} {m : Mapping} {frames : List Bytes} where
  module _ (m' : Mapping) (p g : ℕ) (here : m' p ≡ some g) where
    -- The common part of loading and replacing: `g` is the frame that the page goes to, and no page
    -- that stays is in it.
    settle :
        (k' : ℕ)
        → IsResident block k m frames
        → g < 256
        → g < k'
        → k ≤ k'
        → resident 256 m' ≡ k'
        → ((r : ℕ) → r ≢ p → (m' r ≡ m r) ⊎ (m' r ≡ none))
        → ((r f : ℕ) → r ≢ p → m' r ≡ some f → f ≢ g)
        → IsResident block k' m' (set frames g (block p))
    settle k' i g_small g_in grows counted there apart = record {
      bound = λ r f e. elim (new_or_old m m' p g here there r f e) [
        | inl new ↦ omega arith
        | inr old ↦ omega (arith, i.bound r f old.1)
      ];
      distinct = λ q r f e e'. elim (new_or_old m m' p g here there q f e) [
        | inl new ↦ elim (new_or_old m m' p g here there r f e') [
          | inl new' ↦ new.0 ∙ sym new'.0
          | inr old' ↦ absurd (apart r f old'.0 e' new.1)
        ]
        | inr old ↦ elim (new_or_old m m' p g here there r f e') [
          | inl new' ↦ absurd (apart q f old.0 e new'.1)
          | inr old' ↦ i.distinct q r f old.1 old'.1
        ]
      ];
      content = λ r f e. elim (new_or_old m m' p g here there r f e) [
        | inl new ↦
            rw (new.0, new.1) (get_or-set_self frames g (block p) [] (omega (arith, i.size)))
        | inr old ↦
            get_or-set_ne frames g f (block p) [] (λ same. apart r f old.0 e (sym same))
            ∙ i.content r f old.1
      ];
      counted = counted;
      size = length-set frames g (block p) ∙ i.size;
    }

  -- A page that is not resident is loaded into the next frame.
  pub load-IsResident :
      (m' : Mapping) (p : ℕ)
      → IsResident block k m frames
      → p < 256
      → k < 256
      → m p ≡ none
      → m' p ≡ some k
      → ((r : ℕ) → r ≢ p → m' r ≡ m r)
      → IsResident block (k + 1) m' (set frames k (block p))
  load-IsResident m' p i p_small k_small missing here there =
      settle m' p k here (k + 1) i k_small (omega arith) (omega arith)
        (omega (
          arith,
          resident-change 256 m m' p p_small there,
          ap weight missing,
          ap weight here,
          i.counted,
        ))
        (λ r other. inl (there r other))
        (λ r f other e same. omega (arith, i.bound r f (sym (there r other) ∙ e)))

  -- A page that is not resident takes the frame of one that is.
  pub replace-IsResident :
      (m' : Mapping) (p q f : ℕ)
      → IsResident block k m frames
      → k ≤ 256
      → p < 256
      → q < 256
      → m p ≡ none
      → m q ≡ some f
      → m' p ≡ some f
      → m' q ≡ none
      → ((r : ℕ) → r ≢ p → r ≢ q → m' r ≡ m r)
      → IsResident block k m' (set frames f (block p))
  replace-IsResident m' p q f i k_small p_small q_small missing old here gone there =
      settle m' p f here k i (omega (arith, i.bound q f old)) (i.bound q f old) (omega arith)
        (resident-move 256 m m' p q f f p_small q_small missing old here gone there ∙ i.counted)
        (λ r other. elim (ℕ-split r q) [
          | inl same ↦ inr (ap m' same ∙ gone)
          | inr ne ↦ inl (there r other ne)
        ])
        (λ r f' other e same. elim (ℕ-split r q) [
          | inl r_q ↦ none-ne-some (sym gone ∙ ap m' (sym r_q) ∙ e)
          | inr ne ↦ ne (i.distinct r q f (sym (there r other ne) ∙ e ∙ ap some same) old)
        ])

-- Mappings that agree everywhere have the same residents.
pub IsResident-cong :
    {block : ℕ → Bytes} {k : ℕ} {m : Mapping} {frames : List Bytes} (m' : Mapping)
    → IsResident block k m frames
    → ((r : ℕ) → m' r ≡ m r)
    → IsResident block k m' frames
IsResident-cong {m} m' i same = record {
  bound = λ p f e. i.bound p f (sym (same p) ∙ e);
  distinct = λ p q f e e'. i.distinct p q f (sym (same p) ∙ e) (sym (same q) ∙ e');
  content = λ p f e. i.content p f (sym (same p) ∙ e);
  counted = resident-cong 256 m m' (λ r _. same r) ∙ i.counted;
  size = i.size;
}

-- With no page resident, no frame is in use.
pub IsResident-none :
    {block : ℕ → Bytes} {frames : List Bytes} (m : Mapping)
    → length frames ≡ 256
    → ((r : ℕ) → m r ≡ none)
    → IsResident block 0 m frames
IsResident-none m size missing = record {
  bound = λ p f e. absurd (none-ne-some (sym (missing p) ∙ e));
  distinct = λ p q f e e'. absurd (none-ne-some (sym (missing p) ∙ e));
  content = λ p f e. absurd (none-ne-some (sym (missing p) ∙ e));
  counted = resident-none 256 m missing;
  size = size;
}
