-- ===== src/Vmm/Table/Reverse.antt =====
-- pagetable.cpp: `rlookup`, the search by frame.
use unix_sys_prog.Common.{
  ℕ, zero, suc, ◌+◌, ◌<◌, ◌≡◌, ◌≢◌, refl, true, false, some, List, [], ◌∷◌, arith, length, get_or,
}
use unix_sys_prog.Vmm.Table.{PageEntry, zero_entry, PageTable, assign, Found, rlookup_from, rlookup}
use unix_sys_prog.Vmm.Table.Lookup.{IsClocked, mapping, frame_of}

-- Nothing is found where no valid entry has the frame.
rlookup_from_miss :
    (frame i : ℕ) (es : List PageEntry) (found : Found)
    → ((j : ℕ) → frame_of (get_or es j zero_entry) ≢ some frame)
    → rlookup_from frame i es found ≡ found
unfolding rlookup_from
rlookup_from_miss frame i [] found h = refl
rlookup_from_miss frame i (e ∷ es) found h =
    ground (arith, h 0, rlookup_from_miss frame (i + 1) es found (λ j. h (suc j)))

-- Where exactly one valid entry has the frame, that entry is found.
rlookup_from_hit :
    (frame i j : ℕ) (es : List PageEntry) (found : Found)
    → j < length es
    → frame_of (get_or es j zero_entry) ≡ some frame
    → ((l : ℕ) → frame_of (get_or es l zero_entry) ≡ some frame → l ≡ j)
    → let r = rlookup_from frame i es found in
      (r.success ≡ true) × (r.pageno ≡ i + j) × (frame_of r.entry ≡ some frame)
unfolding rlookup_from
rlookup_from_hit frame i j [] found lt hit only = elim lt [ ]
rlookup_from_hit frame i zero (e ∷ es) found lt hit only = ground (
  arith,
  rlookup_from_miss frame (i + 1) es
      (record { success = true; pageno = i; entry = assign found.entry e })
      (λ l h. absurd (omega (arith, only (suc l) h))),
)
rlookup_from_hit frame i (suc j) (e ∷ es) found lt hit only =
    let unlike : frame_of e ≢ some frame = λ h. absurd (omega (arith, only 0 h)) in
    ground (
      arith,
      unlike,
      rlookup_from_hit frame (i + 1) j es found (omega arith) hit
          (λ l h. omega (arith, only (suc l) h)),
    )

-- In a table where no two pages share a frame, `rlookup` of the frame of a page returns success,
-- that page, and an entry with the page's mapping, whatever the caller's variables held.
pub rlookup_lem :
    (t : PageTable) (p frame junk_page : ℕ) (junk : PageEntry)
    → IsClocked t
    → p < 256
    → mapping t p ≡ some frame
    → ((q : ℕ) → mapping t q ≡ some frame → q ≡ p)
    → let r = rlookup t frame junk_page junk in
      (r.success ≡ true) × (r.pageno ≡ p) × (frame_of r.entry ≡ some frame)
unfolding rlookup
rlookup_lem t p frame junk_page junk clocked small here only =
    let (a, b, c) =
      rlookup_from_hit frame 0 p t.table
        (record { success = false; pageno = junk_page; entry = junk }) (omega (arith, clocked.size))
        here only in
    (a, omega (arith, b), c)
