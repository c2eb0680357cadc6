-- ===== src/VmmBasic/Table.antt =====
-- pa3_2/VirtualMemoryManager/pagetable.cpp: class PageTable without counters and policies.
use unix_sys_prog.Common.{
  ℕ, zero, suc, ◌+◌, ◌%◌, ◌<◌, ◌≡◌, ◌≢◌, refl, sym, ap, ◌∙◌, Bool, false, Option, some, none, List,
  [], ◌∷◌, arith, length, get_or, set, replicate, length-replicate, length-set, get_or-set_self,
  get_or-set_ne, ltb, if◌then◌else◌,
}
use unix_sys_prog.Paging.Count.{Mapping}
use unix_sys_prog.Vmm.Address.{number_of_page_in_vm}

pub record PageEntry : Type 0 where
  pub is_valid : Bool
  pub is_modified : Bool
  pub frame_number : ℕ

abbrev pub zero_entry : PageEntry
zero_entry = record { is_valid = false; is_modified = false; frame_number = 0 }

-- `operator=`
unfoldable pub assign : PageEntry → PageEntry → PageEntry
assign target pe = record target {
  is_modified = pe.is_modified;
  is_valid = pe.is_valid;
  frame_number = pe.frame_number;
}

pub record PageTable : Type 0 where
  pub table : List PageEntry
  pub pageno : ℕ

unfoldable pub invalidate_entries : List PageEntry → List PageEntry
invalidate_entries [] = []
invalidate_entries (e ∷ es) = record e { is_valid = false } ∷ invalidate_entries es

unfoldable pub invalidate_table : PageTable → PageTable
invalidate_table t = record t { table = invalidate_entries t.table }

-- `initialize`, as the constructor runs it: `-1` in a `uint8_t` is 255.
unfoldable pub initialize : PageTable
initialize =
    invalidate_table (record { table = replicate number_of_page_in_vm zero_entry; pageno = 255 })

abbrev pub entry_at : PageTable → ℕ → PageEntry
entry_at t p = get_or t.table p zero_entry

-- `lookup`: what is assigned to the caller's entry, or none for status_failure.
unfoldable pub lookup : PageTable → ℕ → PageEntry → Option PageEntry
lookup t page_number target =
    if ltb page_number number_of_page_in_vm
    then some (assign target (entry_at t page_number))
    else none

unfoldable pub update_page_entry : PageTable → PageEntry → ℕ → PageTable
update_page_entry t entry pageno = record t {
  table = set t.table pageno (assign (entry_at t pageno) entry);
}

unfoldable pub find_victim : PageTable → PageTable × ℕ
find_victim t =
    let pageno = (t.pageno + 1) % number_of_page_in_vm in (record t { pageno = pageno }, pageno)

-- `addPageEntry`, which the manager does not call.
unfoldable pub add_page_entry : PageTable → PageEntry → PageTable × ℕ
add_page_entry t entry =
    let (t', victim) = find_victim t in (update_page_entry t' entry victim, victim)

abbrev pub frame_of : PageEntry → Option ℕ
frame_of e = if e.is_valid then some e.frame_number else none

-- Which page is in which frame.
abbrev pub mapping : PageTable → Mapping
mapping t p = frame_of (entry_at t p)

pub mapping-update_page_entry :
    (t : PageTable) (p : ℕ) (e : PageEntry)
    → length t.table ≡ 256
    → p < 256
    → (mapping (update_page_entry t e p) p ≡ frame_of e)
      × ((q : ℕ) → q ≢ p → mapping (update_page_entry t e p) q ≡ mapping t q)
unfolding update_page_entry assign
mapping-update_page_entry t p e size small = (
  ap frame_of
      (get_or-set_self t.table p (assign (entry_at t p) e) zero_entry (omega (arith, size))),
  λ q ne.
      ap frame_of
        (get_or-set_ne t.table p q (assign (entry_at t p) e) zero_entry (λ s. ne (sym s))),
)

pub length-update_page_entry :
    (t : PageTable) (p : ℕ) (e : PageEntry)
    → length (update_page_entry t e p).table ≡ length t.table
unfolding update_page_entry
length-update_page_entry t p e = length-set t.table p (assign (entry_at t p) e)

invalid :
    (q : ℕ) (es : List PageEntry) → frame_of (get_or (invalidate_entries es) q zero_entry) ≡ none
unfolding invalidate_entries
invalid q [] = refl
invalid zero (e ∷ es) = refl
invalid (suc q) (e ∷ es) = invalid q es

length-invalidate_entries : (es : List PageEntry) → length (invalidate_entries es) ≡ length es
unfolding invalidate_entries
length-invalidate_entries [] = refl
length-invalidate_entries (e ∷ es) = ap suc (length-invalidate_entries es)

pub mapping-initialize : (q : ℕ) → mapping initialize q ≡ none
unfolding initialize invalidate_table
mapping-initialize q = invalid q (replicate 256 zero_entry)

pub length-initialize : length initialize.table ≡ 256
unfolding initialize invalidate_table
length-initialize =
    length-invalidate_entries (replicate 256 zero_entry) ∙ length-replicate 256 zero_entry
