-- ===== src/Vmm/Table/Victim.antt =====
-- pagetable.cpp: the victim searches. The scan finds the least value among the valid entries.
use unix_sys_prog.Common.{
  ℕ, zero, suc, ◌+◌, ◌<◌, ◌≤◌, ◌≡◌, ◌⊎◌, inl, inr, refl, sym, true, some, List, [], ◌∷◌, arith,
  length, get_or, ltb, ◌&&◌, Bool-cases,
}
use unix_sys_prog.Vmm.Table.{
  ReplacementStrategy, fifo, lru, PageEntry, zero_entry, PageTable, entry_at, scan_victim,
  find_victim_by_fifo, find_victim_by_lru, find_victim,
}
use unix_sys_prog.Vmm.Table.Lookup.{IsClocked, mapping}

module _ (key : PageEntry → ℕ) where
  -- No valid entry has a key below the bound.
  abbrev NoneBelow : List PageEntry → ℕ → Type 0
  NoneBelow es min =
      (i : ℕ) → (get_or es i zero_entry).is_valid ≡ true → min ≤ key (get_or es i zero_entry)

  -- The entry at an index is valid, has the frame, and no valid entry has a smaller key.
  pub record IsLeast (es : List PageEntry) (min frame i : ℕ) : Type 0 where
    pub inside : i < length es
    pub valid : (get_or es i zero_entry).is_valid ≡ true
    pub framed : (get_or es i zero_entry).frame_number ≡ frame
    pub below : key (get_or es i zero_entry) < min
    pub least : NoneBelow es (key (get_or es i zero_entry))

  NoneBelow-cons :
      (e : PageEntry) (es : List PageEntry) (min : ℕ)
      → (e.is_valid ≡ true → min ≤ key e)
      → NoneBelow es min
      → NoneBelow (e ∷ es) min
  NoneBelow-cons e es min here there zero v = here v
  NoneBelow-cons e es min here there (suc i) v = there i v

  abbrev Scanned : List PageEntry → ℕ → ℕ → ℕ → Type 0
  Scanned es min frameno result =
      ((result ≡ frameno) × NoneBelow es min) ⊎ ((i : ℕ) × IsLeast es min result i)

  pub scan_victim_lem :
      (es : List PageEntry) (min frameno : ℕ)
      → Scanned es min frameno (scan_victim key es min frameno)
  unfolding scan_victim
  scan_victim_lem [] min frameno = inl (refl, λ i v. cc)
  scan_victim_lem (e ∷ es) min frameno = elim (Bool-cases (e.is_valid && ltb (key e) min)) [
    | inl taken ↦ rw taken (elim (scan_victim_lem es (key e) e.frame_number) [
      | inl kept ↦ inr (
        0,
        record {
          inside = omega arith;
          valid = ground arith;
          framed = sym kept.0;
          below = ground arith;
          least = NoneBelow-cons e es (key e) (λ v. omega arith) kept.1;
        },
      )
      | inr (i, found) ↦ inr (
        suc i,
        record {
          inside = omega (arith, found.inside);
          valid = found.valid;
          framed = found.framed;
          below = ground (arith, found.below);
          least = NoneBelow-cons e es _ (λ v. omega (arith, found.below)) found.least;
        },
      )
    ])
    | inr passed ↦ rw passed (elim (scan_victim_lem es min frameno) [
      | inl kept ↦ inl (kept.0, NoneBelow-cons e es min (λ v. ground arith) kept.1)
      | inr (i, found) ↦ inr (
        suc i,
        record {
          inside = omega (arith, found.inside);
          valid = found.valid;
          framed = found.framed;
          below = found.below;
          least = NoneBelow-cons e es _ (λ v. ground (arith, found.below)) found.least;
        },
      )
    ])
  ]

  -- With a valid entry below the start value, the scan finds one with the least key.
  pub scan_victim-IsLeast :
      (es : List PageEntry) (min frameno j : ℕ)
      → (get_or es j zero_entry).is_valid ≡ true
      → key (get_or es j zero_entry) < min
      → (i : ℕ) × IsLeast es min (scan_victim key es min frameno) i
  scan_victim-IsLeast es min frameno j v lt = elim (scan_victim_lem es min frameno) [
    | inl kept ↦ absurd (omega (arith, kept.1 j v))
    | inr found ↦ found
  ]

-- The key that a policy compares.
abbrev pub age : ReplacementStrategy → PageEntry → ℕ
age fifo e = e.fifono
age lru e = e.accessno

-- What a least entry of the table says of the mapping.
abbrev pub IsOldest : (PageEntry → ℕ) → PageTable → ℕ → ℕ → Type 0
IsOldest key t frame p =
    (p < 256)
    × (mapping t p ≡ some frame)
    × ((q : ℕ) → (entry_at t q).is_valid ≡ true → key (entry_at t p) ≤ key (entry_at t q))

IsOldest-of_least :
    (key : PageEntry → ℕ) (t : PageTable) (min frame i : ℕ)
    → length t.table ≡ 256
    → IsLeast key t.table min frame i
    → IsOldest key t frame i
IsOldest-of_least key t min frame i size l =
    (omega (arith, l.inside), ground (arith, l.valid, l.framed), λ q v. l.least q v)

find_victim_by_fifo-IsOldest :
    (t : PageTable) (j : ℕ)
    → IsClocked t
    → (entry_at t j).is_valid ≡ true
    → (p : ℕ) × IsOldest (λ e. e.fifono) t (find_victim_by_fifo t) p
unfolding find_victim_by_fifo
find_victim_by_fifo-IsOldest t j clocked v =
    let (p, l) =
      scan_victim-IsLeast (λ e. e.fifono) t.table (t.fifono + 1) 0 j v
        (omega (arith, clocked.inserted j v)) in
    (p, IsOldest-of_least (λ e. e.fifono) t (t.fifono + 1) _ p clocked.size l)

find_victim_by_lru-IsOldest :
    (t : PageTable) (j : ℕ)
    → IsClocked t
    → (entry_at t j).is_valid ≡ true
    → (p : ℕ) × IsOldest (λ e. e.accessno) t (find_victim_by_lru t) p
unfolding find_victim_by_lru
find_victim_by_lru-IsOldest t j clocked v =
    let (p, l) =
      scan_victim-IsLeast (λ e. e.accessno) t.table (t.accessno + 1) 0 j v
        (omega (arith, clocked.accessed j v)) in
    (p, IsOldest-of_least (λ e. e.accessno) t (t.accessno + 1) _ p clocked.size l)

-- Which search each policy runs.
by_strategy :
    (t : PageTable) (s : ReplacementStrategy)
    → t.strategy ≡ s
    → (p : ℕ) → (s ≡ fifo → IsOldest (λ e. e.fifono) t (find_victim_by_fifo t) p)
    → (s ≡ lru → IsOldest (λ e. e.accessno) t (find_victim_by_lru t) p)
    → IsOldest (age t.strategy) t (find_victim t) p
unfolding find_victim
by_strategy t fifo e p f l =
    let (lt, m, least) = f refl in (lt, ground arith, λ q v. ground (arith, least q v))
by_strategy t lru e p f l =
    let (lt, m, least) = l refl in (lt, ground arith, λ q v. ground (arith, least q v))

-- When some page is valid, and the counters of the valid entries lie below those of the table,
-- the frame chosen by the table's policy belongs to a valid page that was inserted (FIFO) or last
-- used (LRU) no later than any other valid page.
pub find_victim-IsOldest :
    (t : PageTable) (j : ℕ)
    → IsClocked t
    → (entry_at t j).is_valid ≡ true
    → (p : ℕ) × IsOldest (age t.strategy) t (find_victim t) p
find_victim-IsOldest t j clocked v = choose t.strategy refl
  where
    choose :
        (s : ReplacementStrategy)
        → t.strategy ≡ s
        → (p : ℕ) × IsOldest (age t.strategy) t (find_victim t) p
    choose fifo e =
        let (p, o) = find_victim_by_fifo-IsOldest t j clocked v in
        (p, by_strategy t fifo e p (λ _. o) (λ h. cc))
    choose lru e =
        let (p, o) = find_victim_by_lru-IsOldest t j clocked v in
        (p, by_strategy t lru e p (λ h. cc) (λ _. o))
