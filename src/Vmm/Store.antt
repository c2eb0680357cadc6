-- ===== src/Vmm/Store.antt =====
-- pa3_3/VMM2/backingstore.cpp: class BackingStore over the system calls open, close, lseek, read.
-- The calls are parameters: what they return for their arguments.
pub mod Failure
use unix_sys_prog.Common.{
  zero, ℕ, ◌*◌, ◌<◌, ◌≡◌, Bool, true, false, Option, some, none, List, ◌++◌, length, drop,
  if◌then◌else◌,
}
use unix_sys_prog.Common.Int.{ℤ, pos, negsuc}
use unix_sys_prog.Vmm.Address.{page_size, status_success}
use unix_sys_prog.Vmm.Page.{Page, assign}

-- The operating system as the open file's user sees it.
pub record Device : Type 0 where
  -- `lseek(file, position, SEEK_SET)`: the errno if it returns -1.
  pub lseek : ℕ → Option ℕ
  -- `read(file, buffer, size)` at a position: the bytes that arrive, or none if it returns -1.
  pub read : ℕ → ℕ → Option (List ℕ)
  -- What the stack holds where the buffer `tbuf` is allocated.
  pub stale : ℕ → List ℕ

-- How `getPage` ends: with the page and the value of `rval`.
unfoldable pub get_page : Device → Page → ℕ → ℕ → Page × ℕ
get_page device page position pagesize = elim (device.lseek position) [
  | some errno ↦ (page, errno)
  | none ↦ (
    assign page (elim (device.read position pagesize) [
      | none ↦ device.stale pagesize
      | some bytes ↦ bytes ++ drop (length bytes) (device.stale pagesize)
    ]),
    status_success,
  )
]

pub record BackingStore : Type 0 where
  pub file : ℤ
  pub isopen : Bool

-- `openFile`, given what `open` returns. The returned status is `status_success` on both paths.
unfoldable pub open_file : ℤ → BackingStore → BackingStore × ℕ
open_file (negsuc zero) b = (record b { file = negsuc 0 }, status_success)
open_file fd b = (record { file = fd; isopen = true }, status_success)

-- The constructor, given what `isopen` holds before.
unfoldable pub open_store : ℤ → Bool → BackingStore
unfolding open_file
open_store fd junk = (open_file fd (record { file = pos 0; isopen = junk })).0

-- `closeFile`, given whether `close` succeeds.
unfoldable pub close_file : Bool → BackingStore → BackingStore × ℕ
close_file closed b =
    if b.isopen
    then (if closed then (record b { isopen = false }, status_success) else (b, status_success))
    else (record b { isopen = false }, status_success)

-- What the manager relies on: every seek to a page succeeds, and a read there returns the whole
-- page, whose bytes do not change while the file is open.
pub record IsHealthy (device : Device) (block : ℕ → List ℕ) : Type 0 where
  pub seeks : (p : ℕ) → p < 256 → device.lseek (p * page_size) ≡ none
  pub reads : (p : ℕ) → p < 256 → device.read (p * page_size) page_size ≡ some (block p)
  -- `tbuf` has `pagesize` bytes.
  pub sized : length (device.stale page_size) ≡ page_size
  pub whole : (p : ℕ) → p < 256 → length (block p) ≡ 256
