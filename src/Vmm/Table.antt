-- ===== src/Vmm/Table.antt =====
-- pa3_3/VMM2/pagetable.cpp: class PageTable, one entry for each page, with the counters by which
-- the FIFO and the LRU policy choose a victim. A counter is a number without bound: the `int` of the
-- source is enough for 2^31 lookups. The traces and the dump are left out.
pub mod Lookup
pub mod Victim
pub mod Reverse
use unix_sys_prog.Common.{
  ℕ, ◌+◌, Bool, true, false, ◌&&◌, Option, some, none, List, [], ◌∷◌, set, get_or, replicate, ◌==◌,
  ltb, if◌then◌else◌,
}
use unix_sys_prog.Vmm.Address.{number_of_page_in_vm}

pub data ReplacementStrategy : Type 0 where
  fifo lru : ReplacementStrategy

pub record PageEntry : Type 0 where
  pub is_valid : Bool
  pub is_modified : Bool
  pub accessno : ℕ
  pub fifono : ℕ
  pub frame_number : ℕ

-- What `resize` puts in.
abbrev pub zero_entry : PageEntry
zero_entry = record {
  is_valid = false;
  is_modified = false;
  accessno = 0;
  fifono = 0;
  frame_number = 0;
}

-- `operator=` copies three of the five fields.
unfoldable pub assign : PageEntry → PageEntry → PageEntry
assign target pe = record target {
  is_modified = pe.is_modified;
  is_valid = pe.is_valid;
  frame_number = pe.frame_number;
}

pub record PageTable : Type 0 where
  pub table : List PageEntry
  pub frameno : ℕ
  pub pageno : ℕ
  pub accessno : ℕ
  pub fifono : ℕ
  pub strategy : ReplacementStrategy

-- The loop of `invalidateTable` from index `i` on; `i` is stored in a `uint8_t`.
unfoldable pub invalidate_from : ℕ → List PageEntry → List PageEntry
invalidate_from i [] = []
invalidate_from i (e ∷ es) =
    record e { is_valid = false; frame_number = i; accessno = 0; fifono = 0 }
    ∷ invalidate_from (i + 1) es

unfoldable pub invalidate_table : PageTable → PageTable
unfolding invalidate_from
invalidate_table t = record t { accessno = 0; fifono = 0; table = invalidate_from 0 t.table }

-- `initialize`, as the constructor runs it: `-1` in a `uint8_t` is 255.
unfoldable pub initialize : PageTable
unfolding invalidate_table
initialize = invalidate_table (record {
  table = replicate number_of_page_in_vm zero_entry;
  frameno = 255;
  pageno = 255;
  accessno = 0;
  fifono = 0;
  strategy = fifo;
})

unfoldable pub set_strategy : ReplacementStrategy → PageTable → PageTable
set_strategy strategy t = record t { strategy = strategy }

abbrev pub entry_at : PageTable → ℕ → PageEntry
entry_at t p = get_or t.table p zero_entry

unfoldable pub access_page_fifo : PageTable → ℕ → PageTable
access_page_fifo t page_number = t

unfoldable pub access_page_lru : PageTable → ℕ → PageTable
access_page_lru t page_number = record t {
  table = set t.table page_number (record (entry_at t page_number) { accessno = t.accessno });
  accessno = t.accessno + 1;
}

unfoldable pub access_page : PageTable → ℕ → PageTable
unfolding access_page_fifo access_page_lru
access_page t page_number = elim t.strategy [
  | fifo ↦ access_page_fifo t page_number
  | lru ↦ access_page_lru t page_number
]

-- `lookup`: the table after the book keeping, and what is assigned to the caller's entry, or
-- status_failure.
unfoldable pub lookup : PageTable → ℕ → PageEntry → PageTable × Option PageEntry
unfolding assign access_page
lookup t page_number target =
    if ltb page_number number_of_page_in_vm
    then (access_page t page_number, some (assign target (entry_at t page_number)))
    else (t, none)

-- What `rlookup` has found so far: its status, `pageno` and `pageEntry`.
pub record Found : Type 0 where
  pub success : Bool
  pub pageno : ℕ
  pub entry : PageEntry

-- The loop of `rlookup` from index `i` on. It has no `break`: the last match counts.
unfoldable pub rlookup_from : ℕ → ℕ → List PageEntry → Found → Found
unfolding assign
rlookup_from frame i [] found = found
rlookup_from frame i (pe ∷ es) found = rlookup_from frame (i + 1) es (
    if (pe.frame_number == frame) && pe.is_valid
    then record { success = true; pageno = i; entry = assign found.entry pe }
    else found)

unfoldable pub rlookup : PageTable → ℕ → ℕ → PageEntry → Found
unfolding rlookup_from
rlookup t frame pageno entry =
    rlookup_from frame 0 t.table (record { success = false; pageno = pageno; entry = entry })

unfoldable pub update_page_entry : PageTable → PageEntry → ℕ → PageTable
unfolding assign
update_page_entry t entry pageno = record t {
  table =
      set t.table pageno
        (record (assign (entry_at t pageno) entry) { accessno = t.accessno; fifono = t.fifono });
  accessno = t.accessno + 1;
  fifono = t.fifono + 1;
}

-- The loop that both victim searches run, over the field that each compares: `frameno` is the frame
-- of the entry with the least value below `min` so far.
unfoldable pub scan_victim : (PageEntry → ℕ) → List PageEntry → ℕ → ℕ → ℕ
scan_victim key [] min frameno = frameno
scan_victim key (e ∷ es) min frameno =
    scan_victim key es (if e.is_valid && ltb (key e) min then key e else min)
      (if e.is_valid && ltb (key e) min then e.frame_number else frameno)

unfoldable pub find_victim_by_lru : PageTable → ℕ
unfolding scan_victim
find_victim_by_lru t = scan_victim (λ e. e.accessno) t.table (t.accessno + 1) 0

unfoldable pub find_victim_by_fifo : PageTable → ℕ
unfolding scan_victim
find_victim_by_fifo t = scan_victim (λ e. e.fifono) t.table (t.fifono + 1) 0

unfoldable pub find_victim : PageTable → ℕ
unfolding find_victim_by_fifo find_victim_by_lru
find_victim t = elim t.strategy [ fifo ↦ find_victim_by_fifo t | lru ↦ find_victim_by_lru t ]

-- `addPageEntry`, which the manager does not call: a frame number serves as the index.
unfoldable pub add_page_entry : PageTable → PageEntry → PageTable × ℕ
unfolding find_victim assign
add_page_entry t entry =
    let victim = find_victim t in
    (record t { table = set t.table victim (assign (entry_at t victim) entry) }, victim)
