-- ===== src/VmmBasic/Manager/Sound.antt =====
-- pa3_2/VirtualMemoryManager/vmm.cpp: what ties the page table, the frames and the TLB together.
use unix_sys_prog.Common.{
  inl, inr, ℕ, ◌+◌, ◌%◌, ◌<◌, ◌≡◌, refl, sym, ap, ◌∙◌, true, false, some, [], arith, length, get_or,
  set, replicate, length-replicate, get_or-replicate, get_or-set_self, get_or-set_ne,
}
use unix_sys_prog.Paging.{Bytes, IsResident, IsResident-none}
use unix_sys_prog.Paging.Count.{ℕ-split}
use unix_sys_prog.Vmm.Memory
use unix_sys_prog.Vmm.Memory.{PhysicalMemory, frame_at, find_victim, load_frame}
use unix_sys_prog.Vmm.Page.Copy.{assign-eq}
use unix_sys_prog.Vmm.Tlb.Coherence.{IsCoherent, initialize-IsCoherent}
use unix_sys_prog.VmmBasic.Table.{
  PageEntry, PageTable, mapping, update_page_entry, mapping-initialize, length-initialize,
}
use unix_sys_prog.VmmBasic.Manager.{add_page, Vmm, init, install}

-- How many reads have been answered.
abbrev pub answered : Vmm → ℕ
answered v = v.pagehits + v.pagefaults + v.tlbhits

-- `k` pages are in the first `k` frames, and the next page goes to frame `k`.
pub record IsSound (block : ℕ → Bytes) (k : ℕ) (v : Vmm) : Type 0 where
  pub residents : IsResident block k (mapping v.table) v.memory.frames
  pub size : length v.table.table ≡ 256
  pub next : k < 256 → (v.memory.frameno + 1) % 256 ≡ k
  pub pages : (f : ℕ) → f < 256 → length (frame_at v.memory f) ≡ 256
  pub coherent : IsCoherent (mapping v.table) v.tlb

pub init-IsSound : (block : ℕ → Bytes) → IsSound block 0 init
unfolding init Memory.initialize
init-IsSound block = record {
  residents = IsResident-none _ (length-replicate 256 (replicate {A = ℕ} 256 0)) mapping-initialize;
  size = length-initialize;
  next = λ _. refl;
  pages = λ f lt.
      ap length (get_or-replicate 256 f (replicate {A = ℕ} 256 0) [] lt)
      ∙ length-replicate {A = ℕ} 256 0;
  coherent = initialize-IsCoherent _;
}

abbrev pub filled : PhysicalMemory → ℕ → Bytes → PhysicalMemory
filled memory k page = record { frames = set memory.frames k page; frameno = k }

abbrev pub entered : PageTable → PageEntry → ℕ → ℕ → PageTable
entered table entry k p =
    update_page_entry table
      (record entry { frame_number = k; is_modified = false; is_valid = true }) p

pub install_lem :
    (v : Vmm) (p k : ℕ) (entry : PageEntry) (page : Bytes)
    → (v.memory.frameno + 1) % 256 ≡ k
    → k < 256
    → length (frame_at v.memory k) ≡ 256
    → length page ≡ 256
    → install v p entry page
      ≡ (record v { memory = filled v.memory k page; table = entered v.table entry k p }, some k)
unfolding install add_page find_victim load_frame
install_lem v p k entry page next small sized sized' =
    let victim : (v.memory.frameno + 1) % 256 % 256 ≡ k = omega arith in
    ground (arith, victim, assign-eq (frame_at v.memory k) page sized sized')

pub filled-pages :
    (memory : PhysicalMemory) (g : ℕ) (page : Bytes)
    → length memory.frames ≡ 256
    → length page ≡ 256
    → ((f : ℕ) → f < 256 → length (frame_at memory f) ≡ 256)
    → (f : ℕ) → f < 256
    → length (frame_at (filled memory g page) f) ≡ 256
filled-pages memory g page size whole pages f lt = elim (ℕ-split f g) [
  | inl same ↦
      ap (λ (h : ℕ). length (get_or (set memory.frames g page) h [])) same
      ∙ ap length (get_or-set_self memory.frames g page [] (omega (arith, same)))
      ∙ whole
  | inr other ↦
      ap length (get_or-set_ne memory.frames g f page [] (λ e. other (sym e))) ∙ pages f lt
]
