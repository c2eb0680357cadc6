-- ===== src/Vmm/Manager/Stats.antt =====
-- vmm.cpp: the counters that `getStats` reports.
use unix_sys_prog.Common.{ℕ, ◌+◌, ◌≡◌, arith, ◌<◌, ◌*◌}
use unix_sys_prog.Vmm.Address.{get_page_number_from_logical_address}
use unix_sys_prog.Vmm.Address.Split.{page_number-lt}
use unix_sys_prog.Vmm.Page.{Page}
use unix_sys_prog.Vmm.Store.{Device, get_page}
use unix_sys_prog.Vmm.Table
use unix_sys_prog.Vmm.Table.{PageEntry, lookup}
use unix_sys_prog.Vmm.Manager.{
  Vmm, Locals, take_frame, install, page_fault, miss, translate, read_byte,
}

-- The accesses that were answered, one way or the other.
abbrev pub answered : Vmm → ℕ
answered v = v.tlbhits + v.pagehits + v.pagefaults

-- Two objects whose counters agree.
pub record SameCounts (v v' : Vmm) : Type 0 where
  pub hits : v'.pagehits ≡ v.pagehits
  pub faults : v'.pagefaults ≡ v.pagefaults
  pub cached : v'.tlbhits ≡ v.tlbhits
  pub lookups : v'.pagelookups ≡ v.pagelookups

take_frame-SameCounts : (locals : Locals) (v : Vmm) → SameCounts v (take_frame locals v).0
unfolding take_frame
take_frame-SameCounts locals v = ground arith

install-SameCounts :
    (n : ℕ) (locals : Locals) (v : Vmm) (p : ℕ) (e : PageEntry) (page : Page)
    → SameCounts v (install n locals v p e page).0
unfolding install
install-SameCounts n locals v p e page = ground (arith, take_frame-SameCounts locals v)

page_fault-counts :
    (device : Device) (n : ℕ) (locals : Locals) (v : Vmm) (p : ℕ) (e : PageEntry)
    → let v' = (page_fault device n locals v p e).0 in
      (answered v' ≡ answered v + 1) × (v'.pagelookups ≡ v.pagelookups)
unfolding page_fault
page_fault-counts device n locals v p e = ground (
  arith,
  install-SameCounts n locals (record v { pagefaults = v.pagefaults + 1 }) p e
      (get_page device locals.page (p * 256) 256).0,
)

miss-counts :
    (device : Device) (n : ℕ) (locals : Locals) (v : Vmm) (p : ℕ)
    → p < 256
    → let v' = (miss device n locals v p).0 in
      (answered v' ≡ answered v + 1) × (v'.pagelookups ≡ v.pagelookups)
unfolding miss lookup
miss-counts device n locals v p small = ground (
  arith,
  page_fault-counts device n locals (record v { table = Table.access_page v.table p }) p
      (Table.assign locals.page_entry (Table.entry_at v.table p)),
)

translate-counts :
    (device : Device) (n : ℕ) (locals : Locals) (v : Vmm) (a : ℕ)
    → let v' = (translate device n locals v a).0 in
      (answered v' ≡ answered v + 1) × (v'.pagelookups ≡ v.pagelookups)
unfolding translate
translate-counts device n locals v a = ground (
  arith,
  miss-counts device n locals v (get_page_number_from_logical_address a) (page_number-lt a),
)

-- Over any store, healthy or not, and with any number of frames, a read, successful or not, adds one
-- to the lookups, and if these were the sum of TLB hits, page hits and page faults before, they are
-- so after it.
pub read_byte-counts :
    (device : Device) (n : ℕ) (locals : Locals) (v : Vmm) (a : ℕ)
    → v.pagelookups ≡ answered v
    → let v' = (read_byte device n locals v a).0 in
      (v'.pagelookups ≡ v.pagelookups + 1) × (v'.pagelookups ≡ answered v')
unfolding read_byte
read_byte-counts device n locals v a h =
    ground
      (arith, translate-counts device n locals (record v { pagelookups = v.pagelookups + 1 }) a)
