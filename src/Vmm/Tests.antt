-- ===== src/Vmm/Tests.antt =====
-- Tests and instances for pa3_3/VMM2.
use unix_sys_prog.Common.{
  ℕ, ◌+◌, ◌-◌, ◌*◌, ◌/◌, ◌≡◌, inl, inr, refl, ap, true, some, none, List, [], ◌∷◌, map, arith,
  length, get_or, replicate, length-replicate, get_or-replicate, ◌∙◌, ◌≢◌, ◌↔◌, ◌==◌, if◌then◌else◌,
}
use unix_sys_prog.Common.Text.{Text, codes}
use unix_sys_prog.Paging.{Bytes}
use unix_sys_prog.Vmm.Address.{
  get_page_number_from_logical_address, get_offset_from_logical_address, join_physical_address,
  get_frame_number_from_physical_address, get_offset_from_physical_address,
}
use unix_sys_prog.Vmm.Memory
use unix_sys_prog.Vmm.Memory.{push_frames, is_free_frame, get_free_frame, add_page}
use unix_sys_prog.Vmm.Page.{Page, assign}
use unix_sys_prog.Vmm.Address.Split.{split-join_physical_address, split_logical_address}
use unix_sys_prog.Vmm.Memory.Access.{IsSized, read_byte-write_byte}
use unix_sys_prog.Vmm.Store.Failure.{get_page_status}
use unix_sys_prog.Vmm.Table.Lookup.{IsClocked, mapping, frame_of}
use unix_sys_prog.Vmm.Table.Victim.{age, IsOldest, find_victim-IsOldest}
use unix_sys_prog.Vmm.Table.Reverse.{rlookup_lem}
use unix_sys_prog.Vmm.Tlb.Rotation.{
  add_entries, initialize-IsRotated, lookup-add_entry, add_entry-survives,
}
use unix_sys_prog.Vmm.Manager.Fault.{Places, page_fault-Places}
use unix_sys_prog.Vmm.Manager.Stats.{answered, read_byte-counts}
use unix_sys_prog.Vmm.Store.{Device, IsHealthy, get_page}
use unix_sys_prog.Vmm.Table
use unix_sys_prog.Vmm.Table.{
  ReplacementStrategy, fifo, lru, zero_entry, update_page_entry, find_victim, rlookup, set_strategy,
}
use unix_sys_prog.Vmm.Tlb
use unix_sys_prog.Vmm.Tlb.{TlbEntry, no_entry, lookup_entry, add_entry, invalidate}
use unix_sys_prog.Vmm.Manager.{
  Vmm, Locals, got, init, read_byte, translate, evict, take_frame, install, page_fault, miss,
}
use unix_sys_prog.Vmm.Manager.Reading.{
  IsSoundVmm, init-IsSound, read_byte-IsSound, read_byte-stored, read_all-stored, read_all, value,
}
use unix_sys_prog.Vmm.Manager.Sound.{count_up, filled, entered, load-IsSound}
use unix_sys_prog.Vmm.Manager.Stale.{stale_read}
use unix_sys_prog.Vmm.Manager.Translate.{stored}
use unix_sys_prog.Vmm.Run.{Surroundings, Line, Statistics, run, printed, number_of_frames}
use unix_sys_prog.Vmm.Run.Output.{run-printed, seen, expected, IsTally}

-- All that the manager calls.
program : Unit {0}
unfolding init translate read_byte evict take_frame install page_fault miss get_page
    update_page_entry find_victim rlookup Table.lookup Table.initialize set_strategy Tlb.lookup
    add_entry invalidate Tlb.initialize Memory.initialize is_free_frame get_free_frame add_page
    push_frames get_page_number_from_logical_address get_offset_from_logical_address
    join_physical_address Memory.read_byte get_frame_number_from_physical_address
    get_offset_from_physical_address assign count_up
program = tt

-- A store whose page `p` is filled with the byte `p`.
abbrev plain_block : ℕ → Bytes
plain_block p = replicate 256 p

abbrev plain_device : Device
plain_device = record {
  lseek = λ position. none;
  read = λ position size. some (replicate size (position / 256));
  stale = λ size. replicate size 7;
}

plain_device-IsHealthy : IsHealthy plain_device plain_block
plain_device-IsHealthy = record {
  seeks = λ p lt. refl;
  reads = λ p lt.
      let whole : p * 256 / 256 ≡ p = omega arith in ap (λ (b : ℕ). some (replicate 256 b)) whole;
  sized = length-replicate {A = ℕ} 256 7;
  whole = λ p lt. length-replicate {A = ℕ} 256 p;
}

abbrev locals : Locals
locals = record {
  page_entry = zero_entry;
  victim_entry = record zero_entry { is_valid = true; frame_number = 9 };
  page = replicate 256 7;
}

locals_sized : length locals.page ≡ 256
locals_sized = length-replicate {A = ℕ} 256 7

-- Three reads, of two pages, with 256 frames.
read_all-stored_example :
    map value (read_all plain_device 256 locals (init 256 lru) (5 ∷ 261 ∷ 7 ∷ [])).1
    ≡ map (λ a. some (stored plain_block a)) (5 ∷ 261 ∷ 7 ∷ [])
read_all-stored_example =
    read_all-stored plain_device locals plain_device-IsHealthy locals_sized lru (5 ∷ 261 ∷ 7 ∷ [])

-- With one frame, an address of page 1.
read_byte-IsSound_example :
    (v' : Vmm) × (k' f byte : ℕ) × (read_byte plain_device 1 locals (init 1 fifo) 261
      ≡ (v', got (join_physical_address f (get_offset_from_logical_address 261)) byte))
    × IsSoundVmm plain_block 1 k' v'
read_byte-IsSound_example =
    read_byte-IsSound plain_device 1 0 locals (init 1 fifo) 261 plain_device-IsHealthy locals_sized
      (omega arith) (omega arith) (init-IsSound plain_block 1 fifo).0

read_byte-stored_example :
    (v' : Vmm) × (k' physical : ℕ) × (read_byte plain_device 1 locals (init 1 fifo) 261
      ≡ (v', got physical (stored plain_block 261)))
    × IsSoundVmm plain_block 1 k' v'
read_byte-stored_example =
    read_byte-stored plain_device 1 0 locals (init 1 fifo) 261 plain_device-IsHealthy locals_sized
      (omega arith) (omega arith) (init-IsSound plain_block 1 fifo).0
      (inl (init-IsSound plain_block 1 fifo).1)

-- One frame, which holds page 0; the TLB has it.
abbrev full : Vmm
full = record (init 1 fifo) {
  memory = filled (init 1 fifo).memory 0 (plain_block 0);
  table = entered (init 1 fifo).table zero_entry 0 0;
  working_set = count_up (0 + 1) (1 - (0 + 1));
  tlb = add_entry Tlb.initialize (record { page_number = 0; frame_number = 0; valid = true });
}

full-IsSound : IsSoundVmm plain_block 1 1 full
unfolding program
full-IsSound =
    load-IsSound 0 zero_entry (init-IsSound plain_block 1 fifo).0 (omega arith) (omega arith)
      (omega arith) refl (length-replicate {A = ℕ} 256 0)

stale_read_example :
    (v'' : Vmm) × (read_byte plain_device 1 locals (translate plain_device 1 locals full 261).0 5
      ≡ (
        v'',
        got (join_physical_address 0 (get_offset_from_logical_address 5)) (
            get_or
              (plain_block (get_page_number_from_logical_address 261))
              (get_offset_from_logical_address 5)
              0),
      ))
unfolding program
stale_read_example =
    stale_read plain_device 1 locals plain_device-IsHealthy locals_sized (omega arith) (omega arith)
      full (translate plain_device 1 locals full 261).0 261 5 5 0 full-IsSound refl refl refl refl

abbrev files : Surroundings
files = record {
  device = plain_device;
  locals = locals;
  input = inr (codes "5" ∷ codes "261" ∷ codes " -1" ∷ []);
  output = none;
  strategy = lru;
  physical_address = 0;
  byte = 0;
  pagehits = 0;
}

abbrev arguments : List Text
arguments = codes "vmm" ∷ codes "bs" ∷ codes "in" ∷ codes "fifo" ∷ []

run-printed_example :
    (out : List Line) × (stats : Statistics) × (run files arguments ≡ printed out stats)
    × (map seen out ≡ map (expected plain_block) (codes "5" ∷ codes "261" ∷ codes " -1" ∷ []))
    × IsTally 3 stats
unfolding number_of_frames
run-printed_example =
    run-printed files arguments (codes "5" ∷ codes "261" ∷ codes " -1" ∷ []) plain_device-IsHealthy
      locals_sized refl refl refl

full-IsClocked : IsClocked full.table
full-IsClocked = full-IsSound.clocked

find_victim-IsOldest_example :
    (p : ℕ) × IsOldest (age full.table.strategy) full.table (find_victim full.table) p
unfolding program
find_victim-IsOldest_example = find_victim-IsOldest full.table 0 full-IsClocked refl

full_mapping : mapping full.table 0 ≡ some 0
unfolding program
full_mapping = refl

rlookup_lem_example :
    let r = rlookup full.table 0 255 zero_entry in
    (r.success ≡ true) × (r.pageno ≡ 0) × (frame_of r.entry ≡ some 0)
rlookup_lem_example =
    rlookup_lem full.table 0 0 255 zero_entry full-IsClocked (omega arith) full_mapping
      (λ q e. full-IsSound.residents.distinct q 0 0 e full_mapping)

-- One frame, taken by page 0, so that the fault on page 1 evicts it.
full_unmapped : mapping full.table 1 ≡ none
unfolding program
full_unmapped = refl

page_fault-Places_example :
    Places plain_block 1 1 full.table full.tlb 1
      (page_fault plain_device 1 locals full 1 zero_entry)
page_fault-Places_example =
    page_fault-Places plain_device 1 1 locals full 1 zero_entry plain_device-IsHealthy locals_sized
      (omega arith) (omega arith) full-IsSound (omega arith) full_unmapped

read_byte-counts_example :
    let v' = (read_byte plain_device 1 locals full 261).0 in
    (v'.pagelookups ≡ full.pagelookups + 1) × (v'.pagelookups ≡ answered v')
unfolding program
read_byte-counts_example = read_byte-counts plain_device 1 locals full 261 refl

abbrev translation : ℕ → TlbEntry
translation p = record { page_number = p; frame_number = p + 1; valid = true }

missed : Tlb.lookup Tlb.initialize 5 ≡ none
unfolding program lookup_entry
missed = refl

lookup-add_entry_example : Tlb.lookup (add_entry Tlb.initialize (translation 5)) 5 ≡ some 6
lookup-add_entry_example =
    lookup-add_entry 0 Tlb.initialize (translation 5) initialize-IsRotated refl missed

add_entry-survives_example :
    (get_or
        (add_entries (add_entry Tlb.initialize (translation 5)) (translation 6 ∷ [])).table
        0
        no_entry
      ≡ translation 5)
    × (Tlb.lookup (add_entries (add_entry Tlb.initialize (translation 5)) (translation 6 ∷ [])) 5
        ≢ none)
add_entry-survives_example =
    add_entry-survives 0 Tlb.initialize (translation 5) (translation 6 ∷ []) initialize-IsRotated
      refl (omega arith)

memory-IsSized : IsSized Memory.initialize
unfolding Memory.initialize
memory-IsSized = record {
  frames = length-replicate 256 (replicate {A = ℕ} 256 0);
  pages = λ f lt.
      ap length (get_or-replicate 256 f (replicate {A = ℕ} 256 0) [] lt)
      ∙ length-replicate {A = ℕ} 256 0;
}

read_byte-write_byte_example :
    (m' : Memory.PhysicalMemory) × (Memory.write_byte Memory.initialize 258 7 ≡ some m')
    × (Memory.read_byte m' 259
        ≡ (if 259 == 258 then some 7 else Memory.read_byte Memory.initialize 259))
read_byte-write_byte_example =
    read_byte-write_byte Memory.initialize 258 259 7 memory-IsSized (omega arith) (omega arith)

split-join_physical_address_example :
    (get_frame_number_from_physical_address (join_physical_address 3 7) ≡ 3)
    × (get_offset_from_physical_address (join_physical_address 3 7) ≡ 7)
    × (join_physical_address 3 7 ≡ 3 * 256 + 7)
split-join_physical_address_example = split-join_physical_address 3 7 (omega arith) (omega arith)

split_logical_address_example :
    get_page_number_from_logical_address 300 * 256 + get_offset_from_logical_address 300 ≡ 300
split_logical_address_example = split_logical_address 300 (omega arith)

-- A store that can be sought but not read.
abbrev broken_device : Device
broken_device = record {
  lseek = λ position. none;
  read = λ position size. none;
  stale = λ size. replicate size 7;
}

get_page_status_example : ((get_page broken_device (replicate 256 1) 512 256).1 ≢ 0) ↔ (
    (errno : ℕ) × (broken_device.lseek 512 ≡ some errno)
    × (errno ≢ 0)
    × ((get_page broken_device (replicate 256 1) 512 256).0 ≡ replicate 256 1))
get_page_status_example = get_page_status broken_device (replicate 256 1) 512 256
