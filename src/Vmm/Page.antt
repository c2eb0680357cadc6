-- ===== src/Vmm/Page.antt =====
-- pa3_3/VMM2/pageblock.cpp: class Page, an array of `PageSize` bytes (pa3_2 has the same file).
-- A page is the list of its bytes.
pub mod Copy
use unix_sys_prog.Common.{
  ℕ, zero, suc, ◌+◌, Option, some, none, List, ltb, if◌then◌else◌, get_or, set,
}
use unix_sys_prog.Vmm.Address.{page_size}

abbrev pub Page : Type 0
Page = List ℕ

-- `getByte`: the byte, or status_failure.
unfoldable pub get_byte : Page → ℕ → Option ℕ
get_byte page offset = if ltb offset page_size then some (get_or page offset 0) else none

-- `putByte`: the page after the write, or status_failure.
unfoldable pub put_byte : Page → ℕ → ℕ → Option Page
put_byte page offset byte = if ltb offset page_size then some (set page offset byte) else none

-- The loop of both `operator=`: `page[i] = buffer[i]` for the `n` indices from `i` on. (A `char`
-- stands here for its byte, so the cast to `Byte` changes nothing.)
unfoldable pub copy_from : ℕ → ℕ → Page → List ℕ → Page
copy_from zero i page buffer = page
copy_from (suc n) i page buffer = copy_from n (i + 1) (set page i (get_or buffer i 0)) buffer

-- `operator=`
unfoldable pub assign : Page → List ℕ → Page
unfolding copy_from
assign page buffer = copy_from page_size 0 page buffer
