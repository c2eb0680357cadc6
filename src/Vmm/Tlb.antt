-- ===== src/Vmm/Tlb.antt =====
-- pa3_3/VMM2/tlb.cpp: class Tlb, a table of `NumberOfTlbEntries` entries that is searched linearly
-- and replaced round robin. pa3_2 has the same class without `invalidate`. The two counters that
-- nothing reads or writes after `initialize` are left out.
pub mod Coherence
pub mod Rotation
use unix_sys_prog.Common.{
  ℕ, Bool, false, ◌&&◌, Option, some, none, List, [], ◌∷◌, set, replicate, ◌==◌, if◌then◌else◌,
}
use unix_sys_prog.Common.Int.{ℤ, negsuc, succ, rem, to_index}
use unix_sys_prog.Vmm.Address.{number_of_tlb_entries}

pub record TlbEntry : Type 0 where
  pub page_number : ℕ
  pub frame_number : ℕ
  pub valid : Bool

-- `TlbEntry()` sets `valid` alone; `resize` makes copies of such an entry.
abbrev pub no_entry : TlbEntry
no_entry = record { page_number = 0; frame_number = 0; valid = false }

pub record Tlb : Type 0 where
  pub table : List TlbEntry
  pub robin : ℤ

unfoldable pub initialize : Tlb
initialize = record { table = replicate number_of_tlb_entries no_entry; robin = negsuc 0 }

-- The search of `lookup`: the frame number of the first valid entry for the page.
unfoldable pub lookup_entry : List TlbEntry → ℕ → Option ℕ
lookup_entry [] pageno = none
lookup_entry (e ∷ es) pageno =
    if e.valid && (e.page_number == pageno) then some e.frame_number else lookup_entry es pageno

-- `lookup`: `some` is a hit with its `frameno`, `none` a miss.
unfoldable pub lookup : Tlb → ℕ → Option ℕ
unfolding lookup_entry
lookup tlb pageno = lookup_entry tlb.table pageno

-- The loop of `invalidate`: what the local copy `tlbEntry` holds when the loop ends.
unfoldable pub invalidate_entry : List TlbEntry → ℕ → TlbEntry → TlbEntry
invalidate_entry [] frameno local = local
invalidate_entry (e ∷ es) frameno local =
    if e.valid && (e.frame_number == frameno)
    then record e { valid = false }
    else invalidate_entry es frameno e

-- `invalidate`: the object, and the local copy in which the flag is cleared.
unfoldable pub invalidate : Tlb → ℕ → Tlb × TlbEntry
unfolding invalidate_entry
invalidate tlb frameno = (tlb, invalidate_entry tlb.table frameno no_entry)

-- `getVictim`
unfoldable pub get_victim : Tlb → Tlb × ℤ
get_victim tlb =
    let robin = rem (succ tlb.robin) number_of_tlb_entries in (record tlb { robin = robin }, robin)

-- `addEntry`; `getVictim` never fails.
unfoldable pub add_entry : Tlb → TlbEntry → Tlb
unfolding get_victim
add_entry tlb entry =
    let (tlb', victim) = get_victim tlb in
    record tlb' { table = set tlb'.table (to_index victim number_of_tlb_entries) entry }
