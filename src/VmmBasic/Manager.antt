-- ===== src/VmmBasic/Manager.antt =====
-- pa3_2/VirtualMemoryManager/vmm.cpp: class VirtualMemoryManager, and physicalmemory.cpp, whose
-- `addPage` takes the frames in turn. `updatePageEntry` always succeeds, so the branch for its failure
-- is not there.
pub mod Sound
pub mod Fault
pub mod Reading
use unix_sys_prog.Common.{
  ℕ, zero, suc, ◌+◌, ◌*◌, Bool, true, false, Option, some, none, List, [], ◌∷◌, ◌==◌, if◌then◌else◌,
}
use unix_sys_prog.Vmm.Address.{
  page_size, status_success, get_page_number_from_logical_address, get_offset_from_logical_address,
  join_physical_address,
}
use unix_sys_prog.Vmm.Memory
use unix_sys_prog.Vmm.Memory.{PhysicalMemory, find_victim, load_frame}
use unix_sys_prog.Vmm.Page.{Page}
use unix_sys_prog.Vmm.Store.{Device, get_page}
use unix_sys_prog.Vmm.Tlb
use unix_sys_prog.Vmm.Tlb.{Tlb, TlbEntry, add_entry}
use unix_sys_prog.Vmm.Manager.{Read, untranslated, unread, got}
use unix_sys_prog.VmmBasic.Table
use unix_sys_prog.VmmBasic.Table.{PageEntry, PageTable, update_page_entry}

abbrev pub number_of_frames_in_pm : ℕ
number_of_frames_in_pm = 256

-- `PhysicalMemory::addPage`: the memory with the page in the next frame, and the frame; none for
-- status_failure.
unfoldable pub add_page : PhysicalMemory → Page → PhysicalMemory × Option (PhysicalMemory × ℕ)
add_page m page =
    let (m', victim) = find_victim number_of_frames_in_pm m in
    (
      m',
      elim (load_frame number_of_frames_in_pm m' victim page) [
        | none ↦ none
        | some loaded ↦ some (loaded, victim)
      ],
    )

pub record Vmm : Type 0 where
  pub memory : PhysicalMemory
  pub table : PageTable
  pub tlb : Tlb
  pub pagehits : ℕ
  pub pagefaults : ℕ
  pub tlbhits : ℕ
  pub pagelookups : ℕ

-- What the local variables of `translate` hold before anything is assigned to them.
pub record Locals : Type 0 where
  pub page_entry : PageEntry
  pub page : Page

-- The constructor.
unfoldable pub init : Vmm
init = record {
  memory = Memory.initialize;
  table = Table.initialize;
  tlb = Tlb.initialize;
  pagehits = 0;
  pagefaults = 0;
  tlbhits = 0;
  pagelookups = 0;
}

-- The rest of a page fault, once the page is read.
unfoldable pub install : Vmm → ℕ → PageEntry → Page → Vmm × Option ℕ
install v pageno entry page =
    let (memory, added) = add_page v.memory page in
    elim added [
      | none ↦ (record v { memory = memory }, none)
      | some (loaded, frameno) ↦ (
        record v {
          memory = loaded;
          table =
              update_page_entry v.table
                (record entry { frame_number = frameno; is_modified = false; is_valid = true })
                pageno;
        },
        some frameno,
      )
    ]

-- The page fault code of `translate`.
unfoldable pub page_fault : Device → Locals → Vmm → ℕ → PageEntry → Vmm × Option ℕ
page_fault device locals v pageno entry =
    let counted = record v { pagefaults = v.pagefaults + 1 } in
    let (page, rval) = get_page device locals.page (pageno * page_size) page_size in
    if rval == status_success then install counted pageno entry page else (counted, none)

-- The branch of a TLB miss up to the update of the TLB.
unfoldable pub miss : Device → Locals → Vmm → ℕ → Vmm × Option ℕ
miss device locals v pageno = elim (Table.lookup v.table pageno locals.page_entry) [
  | none ↦ (v, none)
  | some entry ↦
      if entry.is_valid
      then (record v { pagehits = v.pagehits + 1 }, some entry.frame_number)
      else page_fault device locals v pageno entry
]

unfoldable pub translate : Device → Locals → Vmm → ℕ → Vmm × Option ℕ
translate device locals v address =
    let pageno = get_page_number_from_logical_address address in
    let offset = get_offset_from_logical_address address in
    elim (Tlb.lookup v.tlb pageno) [
      | some frameno ↦
          (record v { tlbhits = v.tlbhits + 1 }, some (join_physical_address frameno offset))
      | none ↦
          let (v', result) = miss device locals v pageno in
          elim result [
            | none ↦ (v', none)
            | some frameno ↦ (
              record v' {
                tlb =
                    add_entry v'.tlb
                      (record { page_number = pageno; frame_number = frameno; valid = true });
              },
              some (join_physical_address frameno offset),
            )
          ]
    ]

-- `readByte`: the new object and what becomes of the two results.
unfoldable pub read_byte : Device → Locals → Vmm → ℕ → Vmm × Read
read_byte device locals v address =
    let (v', result) =
      translate device locals (record v { pagelookups = v.pagelookups + 1 }) address in
    elim result [
      | none ↦ (v', untranslated)
      | some physical ↦ elim (Memory.read_byte v'.memory physical) [
        | none ↦ (v', unread physical)
        | some byte ↦ (v', got physical byte)
      ]
    ]

-- `getStats`: the object, and the total lookups, page faults, `pageHits` and TLB hits. `pageHits` is not
-- set, and keeps `junk`.
unfoldable pub get_stats : Vmm → (junk : ℕ) → Vmm × (ℕ × ℕ × ℕ × ℕ)
get_stats v junk = (v, (v.pagelookups, v.pagefaults, junk, v.tlbhits))
