-- ===== src/Vmm/Tlb/Rotation.antt =====
-- tlb.cpp: round robin replacement. The slot counts up modulo the size of the table, so an entry
-- stays for as many additions as there are slots.
use unix_sys_prog.Common.{
  ℕ, zero, suc, ◌+◌, ◌-◌, ◌%◌, ◌<◌, ◌≤◌, ◌≡◌, ◌≢◌, refl, ap, ◌∙◌, true, some, none, List, [], ◌∷◌,
  arith, set, length, length-set, length-replicate, get_or, get_or-set_self, get_or-set_ne,
}
use unix_sys_prog.Common.Int.{pos, succ, rem}
use unix_sys_prog.Vmm.Tlb.{TlbEntry, no_entry, Tlb, initialize, lookup_entry, lookup, add_entry}

-- The table has its 16 slots, and `next` is the slot that the next addition overwrites.
pub record IsRotated (next : ℕ) (tlb : Tlb) : Type 0 where
  pub size : length tlb.table ≡ 16
  pub turn : rem (succ tlb.robin) 16 ≡ pos next
  pub small : next < 16

pub initialize-IsRotated : IsRotated 0 initialize
unfolding initialize
initialize-IsRotated = record {
  size = length-replicate 16 no_entry;
  turn = refl;
  small = omega arith;
}

-- An addition writes the slot and moves on to the one after it, round the table.
pub add_entry-IsRotated :
    (next : ℕ) (tlb : Tlb) (e : TlbEntry)
    → IsRotated next tlb
    → IsRotated ((next + 1) % 16) (add_entry tlb e)
      × ((add_entry tlb e).table ≡ set tlb.table next e)
unfolding add_entry
add_entry-IsRotated next tlb e r = (
  record {
    size = ground (arith, r.turn, r.size, length-set tlb.table next e);
    turn = ground (arith, r.turn);
    small = omega arith;
  },
  ground (arith, r.turn),
)

-- The search finds what stands in a slot, if no slot holds the page otherwise.
lookup_entry-set :
    (es : List TlbEntry) (i : ℕ) (e : TlbEntry)
    → i < length es
    → e.valid ≡ true
    → lookup_entry es e.page_number ≡ none
    → lookup_entry (set es i e) e.page_number ≡ some e.frame_number
unfolding lookup_entry
lookup_entry-set [] i e lt v h = elim lt [ ]
lookup_entry-set (x ∷ es) zero e lt v h = ground arith
lookup_entry-set (x ∷ es) (suc i) e lt v h = ground (arith, lookup_entry-set es i e)

lookup_entry-found :
    (es : List TlbEntry) (i : ℕ)
    → i < length es
    → (get_or es i no_entry).valid ≡ true
    → lookup_entry es (get_or es i no_entry).page_number ≢ none
unfolding lookup_entry
lookup_entry-found [] i lt v = elim lt [ ]
lookup_entry-found (x ∷ es) zero lt v = ground arith
lookup_entry-found (x ∷ es) (suc i) lt v = ground (arith, lookup_entry-found es i)

-- After a miss, the valid translation that is added is found at the next lookup of its page.
pub lookup-add_entry :
    (next : ℕ) (tlb : Tlb) (e : TlbEntry)
    → IsRotated next tlb
    → e.valid ≡ true
    → lookup tlb e.page_number ≡ none
    → lookup (add_entry tlb e) e.page_number ≡ some e.frame_number
unfolding lookup
lookup-add_entry next tlb e r v miss =
    let (_, written) = add_entry-IsRotated next tlb e r in
    ground
      (arith, written, lookup_entry-set tlb.table next e (omega (arith, r.size, r.small)) v miss)

-- Additions one after the other.
pub add_entries : Tlb → List TlbEntry → Tlb
add_entries tlb [] = tlb
add_entries tlb (e ∷ es) = add_entries (add_entry tlb e) es

-- The slot `i` keeps its entry while the additions are fewer than the slots up to its turn.
slot_kept :
    (es : List TlbEntry) (next i : ℕ) (tlb : Tlb)
    → IsRotated next tlb
    → i < 16
    → length es ≤ (i + 16 - next) % 16
    → get_or (add_entries tlb es).table i no_entry ≡ get_or tlb.table i no_entry
unfolding add_entries
slot_kept [] next i tlb r lt few = refl
slot_kept (e ∷ es) next i tlb r lt few =
    let (r', written) = add_entry-IsRotated next tlb e r in
    slot_kept es ((next + 1) % 16) i (add_entry tlb e) r' lt (omega (arith, r.small))
    ∙ ap (λ (t : List TlbEntry). get_or t i no_entry) written
    ∙ get_or-set_ne tlb.table next i e no_entry (λ s. absurd (omega (arith, r.small)))

add_entries-IsRotated :
    (es : List TlbEntry) (next : ℕ) (tlb : Tlb)
    → IsRotated next tlb
    → IsRotated ((next + length es) % 16) (add_entries tlb es)
unfolding add_entries
add_entries-IsRotated [] next tlb r =
    let same : next ≡ (next + 0) % 16 = omega (arith, r.small) in rw (← same) r
add_entries-IsRotated (e ∷ es) next tlb r =
    let same : ((next + 1) % 16 + length es) % 16 ≡ (next + suc (length es)) % 16 = omega arith in
    rw same at (
      add_entries-IsRotated es ((next + 1) % 16) (add_entry tlb e)
        (add_entry-IsRotated next tlb e r).0)

hit_of_slot :
    (tlb : Tlb) (i : ℕ) (e : TlbEntry)
    → get_or tlb.table i no_entry ≡ e
    → i < length tlb.table
    → e.valid ≡ true
    → lookup tlb e.page_number ≢ none
unfolding lookup
hit_of_slot tlb i e here lt v = rw here at (lookup_entry-found tlb.table i lt (rw here v))

module _ (next : ℕ) (tlb : Tlb) (e : TlbEntry) (es : List TlbEntry) (r : IsRotated next tlb) where
  first : IsRotated ((next + 1) % 16) (add_entry tlb e)
  first = (add_entry-IsRotated next tlb e r).0

  turned : IsRotated (((next + 1) % 16 + length es) % 16) (add_entries (add_entry tlb e) es)
  turned = add_entries-IsRotated es ((next + 1) % 16) (add_entry tlb e) first

  -- A valid entry that was added is still in its slot, and its page still hits, after up to 15
  -- further additions.
  pub add_entry-survives :
      e.valid ≡ true
      → length es ≤ 15
      → (get_or (add_entries (add_entry tlb e) es).table next no_entry ≡ e)
        × (lookup (add_entries (add_entry tlb e) es) e.page_number ≢ none)
  add_entry-survives v few =
      let kept =
        slot_kept es ((next + 1) % 16) next (add_entry tlb e) first r.small (omega (arith, r.small))
        ∙ ap (λ (t : List TlbEntry). get_or t next no_entry) (add_entry-IsRotated next tlb e r).1
        ∙ get_or-set_self tlb.table next e no_entry (omega (arith, r.size, r.small)) in
      (kept, hit_of_slot _ next e kept (omega (arith, turned.size, r.small)) v)

  -- The 16th addition after it overwrites its slot.
  pub add_entry-overwrites :
      (last : TlbEntry)
      → length es ≡ 15
      → get_or (add_entry (add_entries (add_entry tlb e) es) last).table next no_entry ≡ last
  add_entry-overwrites last n =
      let later = add_entries (add_entry tlb e) es in
      let here : ((next + 1) % 16 + length es) % 16 ≡ next = omega (arith, r.small) in
      ap (λ (t : List TlbEntry). get_or t next no_entry) (add_entry-IsRotated _ later last turned).1
      ∙ ap (λ (k : ℕ). get_or (set later.table k last) next no_entry) here
      ∙ get_or-set_self later.table next last no_entry (omega (arith, turned.size, r.small))
