-- ===== src/Vmm/Manager.antt =====
-- pa3_3/VMM2/vmm.cpp: class VirtualMemoryManager. A method returns the new object with its results;
-- `none` is status_failure, on which the caller's variables keep what they held. The traces are left
-- out. `updatePageEntry` always succeeds, so the branch for its failure is not there.
pub mod Sound
pub mod Fault
pub mod Translate
pub mod Reading
pub mod Stale
pub mod Stats
use unix_sys_prog.Common.{
  ℕ, zero, suc, ◌+◌, ◌*◌, Bool, true, false, Option, some, none, List, [], ◌∷◌, ◌==◌, if◌then◌else◌,
}
use unix_sys_prog.Common.Int.{ℤ, to_u8}
use unix_sys_prog.Vmm.Address.{
  page_size, status_success, get_page_number_from_logical_address, get_offset_from_logical_address,
  join_physical_address,
}
use unix_sys_prog.Vmm.Memory
use unix_sys_prog.Vmm.Memory.{
  PhysicalMemory, WorkingSet, push_frames, is_free_frame, get_free_frame, add_page,
}
use unix_sys_prog.Vmm.Page.{Page}
use unix_sys_prog.Vmm.Store.{Device, get_page}
use unix_sys_prog.Vmm.Table
use unix_sys_prog.Vmm.Table.{
  ReplacementStrategy, PageEntry, PageTable, Found, find_victim, rlookup, update_page_entry,
  set_strategy,
}
use unix_sys_prog.Vmm.Tlb
use unix_sys_prog.Vmm.Tlb.{Tlb, TlbEntry, add_entry, invalidate}

pub record Vmm : Type 0 where
  pub memory : PhysicalMemory
  pub table : PageTable
  pub working_set : WorkingSet
  pub tlb : Tlb
  pub pagehits : ℕ
  pub pagefaults : ℕ
  pub tlbhits : ℕ
  pub pagelookups : ℕ

-- What the local variables of `translate` hold before anything is assigned to them.
pub record Locals : Type 0 where
  pub page_entry : PageEntry
  pub victim_entry : PageEntry
  pub page : Page

-- The constructor. `number` is NumberOfFramesInPm.
unfoldable pub init : ℕ → ReplacementStrategy → Vmm
init number strategy = record {
  memory = Memory.initialize;
  table = set_strategy strategy Table.initialize;
  working_set = push_frames number [];
  tlb = Tlb.initialize;
  pagehits = 0;
  pagefaults = 0;
  tlbhits = 0;
  pagelookups = 0;
}

-- The branch of a page fault without a free frame: the victim's page is made invalid and its frame
-- is taken.
unfoldable pub evict : Locals → Vmm → Vmm × ℕ
evict locals v =
    let frame_victim = find_victim v.table in
    let found = rlookup v.table frame_victim 255 locals.victim_entry in
    (
      if found.entry.is_valid
          then record v {
            table =
                update_page_entry v.table (record (found.entry) { is_valid = false }) found.pageno;
            tlb = (invalidate v.tlb found.entry.frame_number).0;
          }
          else v,
      frame_victim,
    )

-- `if(workingSet.isFreeFrame()) … else …`
unfoldable pub take_frame : Locals → Vmm → Vmm × ℕ
unfolding evict
take_frame locals v =
    if is_free_frame v.working_set
    then (let (rest, frame) = get_free_frame v.working_set in
        (record v { working_set = rest }, to_u8 frame))
    else evict locals v

-- The rest of a page fault, once the page is read: a frame is taken and filled, and the page table
-- gets the entry.
unfoldable pub install : ℕ → Locals → Vmm → ℕ → PageEntry → Page → Vmm × Option ℕ
install number locals v pageno entry page =
    let (v', frameno) = take_frame locals v in
    elim (add_page number v'.memory page frameno) [
      | none ↦ (v', none)
      | some memory ↦ (
        record v' {
          memory = memory;
          table =
              update_page_entry v'.table
                (record entry { frame_number = frameno; is_modified = false; is_valid = true })
                pageno;
        },
        some frameno,
      )
    ]

-- The page fault code of `translate`.
unfoldable pub page_fault : Device → ℕ → Locals → Vmm → ℕ → PageEntry → Vmm × Option ℕ
page_fault device number locals v pageno entry =
    let counted = record v { pagefaults = v.pagefaults + 1 } in
    let (page, rval) = get_page device locals.page (pageno * page_size) page_size in
    if rval == status_success
    then install number locals counted pageno entry page
    else (counted, none)

-- The branch of a TLB miss up to the update of the TLB: the frame, from the page table or by a
-- page fault.
unfoldable pub miss : Device → ℕ → Locals → Vmm → ℕ → Vmm × Option ℕ
miss device number locals v pageno =
    let (table, result) = Table.lookup v.table pageno locals.page_entry in
    elim result [
      | none ↦ (record v { table = table }, none)
      | some entry ↦
          if entry.is_valid
          then (record v { table = table; pagehits = v.pagehits + 1 }, some entry.frame_number)
          else page_fault device number locals (record v { table = table }) pageno entry
    ]

-- `translate`
unfoldable pub translate : Device → ℕ → Locals → Vmm → ℕ → Vmm × Option ℕ
translate device number locals v address =
    let pageno = get_page_number_from_logical_address address in
    let offset = get_offset_from_logical_address address in
    elim (Tlb.lookup v.tlb pageno) [
      | some frameno ↦ (
        record v {
          table = (Table.lookup v.table pageno locals.page_entry).0;
          tlbhits = v.tlbhits + 1;
        },
        some (join_physical_address frameno offset),
      )
      | none ↦
          let (v', result) = miss device number locals v pageno in
          elim result [
            | none ↦ (v', none)
            | some frameno ↦ (
              record v' {
                tlb =
                    add_entry v'.tlb
                      (record { page_number = pageno; frame_number = frameno; valid = true });
              },
              some (join_physical_address frameno offset),
            )
          ]
    ]

-- How `readByte` ends.
pub data Read : Type 0 where
  untranslated : Read
  unread : ℕ → Read
  got : ℕ → ℕ → Read

unfoldable pub read_byte : Device → ℕ → Locals → Vmm → ℕ → Vmm × Read
read_byte device number locals v address =
    let (v', result) =
      translate device number locals (record v { pagelookups = v.pagelookups + 1 }) address in
    elim result [
      | none ↦ (v', untranslated)
      | some physical ↦ elim (Memory.read_byte v'.memory physical) [
        | none ↦ (v', unread physical)
        | some byte ↦ (v', got physical byte)
      ]
    ]

-- `getStats`: lookups, faults and TLB hits. The parameter `pageHits` keeps what it held: the body
-- assigns `pagehits`, the field, to itself, as C++ tells the two names apart by case.
unfoldable pub get_stats : Vmm → ℕ → Vmm × (ℕ × ℕ × ℕ × ℕ)
get_stats v page_hits = (v, (v.pagelookups, v.pagefaults, page_hits, v.tlbhits))
