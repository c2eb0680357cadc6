-- ===== src/Vmm/Table/Lookup.antt =====
-- pagetable.cpp: what the operations do to the mapping from pages to frames.
use unix_sys_prog.Common.{
  ◌⊎◌, inl, inr, ℕ, zero, suc, ◌+◌, ◌<◌, ◌≡◌, ◌≢◌, refl, sym, ap, ◌∙◌, true, Option, some, none,
  List, [], ◌∷◌, arith, length, get_or, set, length-set, get_or-set_self, get_or-set_ne,
  if◌then◌else◌, replicate, length-replicate,
}
use unix_sys_prog.Paging.Count.{Mapping, ℕ-split}
use unix_sys_prog.Vmm.Table.{
  ReplacementStrategy, PageEntry, zero_entry, PageTable, entry_at, assign, invalidate_from,
  initialize, set_strategy, access_page, lookup, update_page_entry,
}

abbrev pub frame_of : PageEntry → Option ℕ
frame_of e = if e.is_valid then some e.frame_number else none

-- Which page is in which frame.
abbrev pub mapping : PageTable → Mapping
mapping t p = frame_of (entry_at t p)

-- The counters of the valid entries lie below those of the table.
pub record IsClocked (t : PageTable) : Type 0 where
  pub size : length t.table ≡ 256
  pub accessed : (p : ℕ) → (entry_at t p).is_valid ≡ true → (entry_at t p).accessno < t.accessno
  pub inserted : (p : ℕ) → (entry_at t p).is_valid ≡ true → (entry_at t p).fifono < t.fifono

-- A change of one entry, seen from any page.
entry_at-set :
    (es : List PageEntry) (p q : ℕ) (e : PageEntry)
    → p < length es
    → ((q ≡ p) × (get_or (set es p e) q zero_entry ≡ e))
      ⊎ ((q ≢ p) × (get_or (set es p e) q zero_entry ≡ get_or es q zero_entry))
entry_at-set es p q e lt = elim (ℕ-split q p) [
  | inl same ↦ inl (
    same,
    ap (λ (r : ℕ). get_or (set es p e) r zero_entry) same ∙ get_or-set_self es p e zero_entry lt,
  )
  | inr other ↦ inr (other, get_or-set_ne es p q e zero_entry (λ s. other (sym s)))
]

module _ (t : PageTable) (clocked : IsClocked t) (p : ℕ) (small : p < 256) where
  in_table : p < length t.table
  in_table = omega (arith, clocked.size)

  -- The book keeping of a hit changes no mapping.
  pub mapping-access_page : (q : ℕ) → mapping (access_page t p) q ≡ mapping t q
  unfolding access_page
  mapping-access_page q =
      ground
        (arith, entry_at-set t.table p q (record (entry_at t p) { accessno = t.accessno }) in_table)

  pub access_page-IsClocked : IsClocked (access_page t p)
  unfolding access_page
  access_page-IsClocked = record {
    size = ground (arith, clocked.size, length-set t.table p touched);
    accessed = λ q v. ground (arith, entry_at-set t.table p q touched in_table, clocked.accessed q);
    inserted = λ q v. ground (arith, entry_at-set t.table p q touched in_table, clocked.inserted q);
  }
    where
      touched : PageEntry
      touched = record (entry_at t p) { accessno = t.accessno }

  -- `updatePageEntry` puts the mapping of the given entry at the page.
  pub mapping-update_page_entry :
      (e : PageEntry)
      → (mapping (update_page_entry t e p) p ≡ frame_of e)
        × ((q : ℕ) → q ≢ p → mapping (update_page_entry t e p) q ≡ mapping t q)
  unfolding update_page_entry
  mapping-update_page_entry e = (
    ground (arith, get_or-set_self t.table p (stamped e) zero_entry in_table),
    λ q ne. ground (arith, get_or-set_ne t.table p q (stamped e) zero_entry (λ s. ne (sym s))),
  )
    where
      stamped : PageEntry → PageEntry
      stamped e = record (assign (entry_at t p) e) { accessno = t.accessno; fifono = t.fifono }

  pub update_page_entry-IsClocked : (e : PageEntry) → IsClocked (update_page_entry t e p)
  unfolding update_page_entry
  update_page_entry-IsClocked e = record {
    size = ground (arith, clocked.size, length-set t.table p stamped);
    accessed = λ q v. ground (arith, entry_at-set t.table p q stamped in_table, clocked.accessed q);
    inserted = λ q v. ground (arith, entry_at-set t.table p q stamped in_table, clocked.inserted q);
  }
    where
      stamped : PageEntry
      stamped = record (assign (entry_at t p) e) { accessno = t.accessno; fifono = t.fifono }

  -- `lookup` succeeds, hands out the entry's mapping and keeps the table's.
  pub lookup_lem :
      (target : PageEntry)
      → (e : PageEntry) × (lookup t p target ≡ (access_page t p, some e))
        × (frame_of e ≡ mapping t p)
  unfolding lookup
  lookup_lem target = (assign target (entry_at t p), ground arith, ground arith)

-- The table of the constructor maps no page.
invalidate_from-frame_of :
    (i q : ℕ) (es : List PageEntry) → frame_of (get_or (invalidate_from i es) q zero_entry) ≡ none
unfolding invalidate_from
invalidate_from-frame_of i q [] = refl
invalidate_from-frame_of i zero (e ∷ es) = refl
invalidate_from-frame_of i (suc q) (e ∷ es) = invalidate_from-frame_of (i + 1) q es

length-invalidate_from : (i : ℕ) (es : List PageEntry) → length (invalidate_from i es) ≡ length es
unfolding invalidate_from
length-invalidate_from i [] = refl
length-invalidate_from i (e ∷ es) = ap suc (length-invalidate_from (i + 1) es)

sized : (strategy : ReplacementStrategy) → length (set_strategy strategy initialize).table ≡ 256
unfolding initialize set_strategy
sized strategy =
    length-invalidate_from 0 (replicate 256 zero_entry) ∙ length-replicate 256 zero_entry

module _ (strategy : ReplacementStrategy) where
  pub mapping-initialize : (q : ℕ) → mapping (set_strategy strategy initialize) q ≡ none
  unfolding initialize set_strategy
  mapping-initialize q = invalidate_from-frame_of 0 q (replicate 256 zero_entry)

  pub initialize-IsClocked : IsClocked (set_strategy strategy initialize)
  initialize-IsClocked = record {
    size = size;
    accessed = λ q v. absurd (invalid q v);
    inserted = λ q v. absurd (invalid q v);
  }
    where
      size : length (set_strategy strategy initialize).table ≡ 256
      size = sized strategy

      invalid : (q : ℕ) → (entry_at (set_strategy strategy initialize) q).is_valid ≡ true → ⊥
      invalid q v = ground (arith, mapping-initialize q)
