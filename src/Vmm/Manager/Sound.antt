-- ===== src/Vmm/Manager/Sound.antt =====
-- vmm.cpp: the invariant that ties the page table, the frames and the free frames together, and
-- what loading a page does to it.
use unix_sys_prog.Common.{
  ℕ, zero, suc, ◌+◌, ◌-◌, ◌<◌, ◌≤◌, ◌≡◌, ◌≢◌, inl, inr, refl, sym, ap, ◌∙◌, true, false, some, none,
  [], ◌∷◌, arith, length, get_or, set, get_or-set_self, get_or-set_ne,
}
use unix_sys_prog.Paging.{
  Bytes, IsResident, load-IsResident, replace-IsResident, IsResident-cong, none-ne-some,
}
use unix_sys_prog.Paging.Count.{ℕ-split}
use unix_sys_prog.Vmm.Memory.{PhysicalMemory, WorkingSet, push_frames, frame_at}
use unix_sys_prog.Vmm.Page.{Page}
use unix_sys_prog.Vmm.Table.{PageEntry, PageTable, access_page, update_page_entry}
use unix_sys_prog.Vmm.Table.Lookup.{
  IsClocked, mapping, frame_of, mapping-access_page, access_page-IsClocked,
  mapping-update_page_entry, update_page_entry-IsClocked,
}

-- The frames from `k` on, as many as `left`.
unfoldable pub count_up : ℕ → ℕ → WorkingSet
count_up k zero = []
count_up k (suc left) = k ∷ count_up (k + 1) left

push_frames_lem : (j left : ℕ) → push_frames j (count_up j left) ≡ count_up 0 (j + left)
unfolding push_frames count_up
push_frames_lem zero left = ap (count_up 0) (omega arith)
push_frames_lem (suc j) left =
    ap (λ (i : ℕ). push_frames j (j ∷ count_up i left)) (omega arith)
    ∙ push_frames_lem j (suc left)
    ∙ ap (count_up 0) (omega arith)

-- The constructor's stack has all frames, the lowest on top.
pub push_frames-nil : (n : ℕ) → push_frames n [] ≡ count_up 0 (n - 0)
unfolding count_up
push_frames-nil n = push_frames_lem n 0 ∙ ap (count_up 0) (omega arith)

pub count_up-vacant : (k n : ℕ) → k < n → count_up k (n - k) ≡ k ∷ count_up (k + 1) (n - (k + 1))
unfolding count_up
count_up-vacant k n vacant =
    let left : n - k ≡ suc (n - (k + 1)) = omega arith in ap (count_up k) left

pub count_up-full : (n : ℕ) → count_up n (n - n) ≡ []
unfolding count_up
count_up-full n = let left : n - n ≡ 0 = omega arith in ap (count_up n) left

-- `k` of the `n` frames hold a page: the first `k`. Each is the frame of one valid entry, and holds
-- that page's block; the others are free, in order.
pub record IsSound (block : ℕ → Bytes) (n k : ℕ) (table : PageTable) (memory : PhysicalMemory)
    (free : WorkingSet) : Type 0 where
  pub residents : IsResident block k (mapping table) memory.frames
  pub clocked : IsClocked table
  pub spare : free ≡ count_up k (n - k)
  pub room : k ≤ n
  pub pages : (f : ℕ) → f < 256 → length (frame_at memory f) ≡ 256

abbrev pub filled : PhysicalMemory → ℕ → Page → PhysicalMemory
filled memory f page = record memory { frames = set memory.frames f page }

abbrev pub entered : PageTable → PageEntry → ℕ → ℕ → PageTable
entered table entry f p =
    update_page_entry table
      (record entry { frame_number = f; is_modified = false; is_valid = true }) p

filled-pages :
    (memory : PhysicalMemory) (g : ℕ) (page : Page)
    → length memory.frames ≡ 256
    → length page ≡ 256
    → ((f : ℕ) → f < 256 → length (frame_at memory f) ≡ 256)
    → (f : ℕ) → f < 256
    → length (frame_at (filled memory g page) f) ≡ 256
filled-pages memory g page size whole pages f lt = elim (ℕ-split f g) [
  | inl same ↦
      ap (λ (h : ℕ). length (get_or (set memory.frames g page) h [])) same
      ∙ ap length (get_or-set_self memory.frames g page [] (omega (arith, same)))
      ∙ whole
  | inr other ↦
      ap length (get_or-set_ne memory.frames g f page [] (λ e. other (sym e))) ∙ pages f lt
]

module _ {block : ℕ → Bytes} {n k : ℕ} {table : PageTable} {memory : PhysicalMemory}
    {free : WorkingSet} where
  pub access_page-IsSound :
      (p : ℕ)
      → IsSound block n k table memory free
      → p < 256
      → IsSound block n k (access_page table p) memory free
  access_page-IsSound p s small = record {
    residents = IsResident-cong _ s.residents (mapping-access_page table s.clocked p small);
    clocked = access_page-IsClocked table s.clocked p small;
    spare = s.spare;
    room = s.room;
    pages = s.pages;
  }

  -- A page goes to the next free frame.
  pub load-IsSound :
      (p : ℕ) (e : PageEntry)
      → IsSound block n k table memory free
      → n ≤ 256
      → k < n
      → p < 256
      → mapping table p ≡ none
      → length (block p) ≡ 256
      → IsSound block n
          (k + 1)
          (entered table e k p)
          (filled memory k (block p))
          (count_up (k + 1) (n - (k + 1)))
  load-IsSound p e s fits vacant small missing whole =
      let (here, there) =
        mapping-update_page_entry table s.clocked p small
          (record e { frame_number = k; is_modified = false; is_valid = true }) in
      record {
        residents =
            load-IsResident (mapping (entered table e k p)) p s.residents small (omega arith)
              missing here there;
        clocked = update_page_entry-IsClocked table s.clocked p small _;
        spare = refl;
        room = omega arith;
        pages = filled-pages memory k (block p) s.residents.size whole s.pages;
      }

  -- A page takes the frame of page `q`, whose entry is made invalid first.
  pub replace-IsSound :
      (p q f : ℕ) (e old : PageEntry)
      → IsSound block n k table memory free
      → n ≤ 256
      → p < 256
      → q < 256
      → mapping table p ≡ none
      → mapping table q ≡ some f
      → old.is_valid ≡ false
      → length (block p) ≡ 256
      → IsSound block n k
          (entered (update_page_entry table old q) e f p)
          (filled memory f (block p))
          free
  replace-IsSound p q f e old s fits small small' missing held off whole = record {
    residents =
        replace-IsResident (mapping (entered middle e f p)) p q f s.residents
          (omega (arith, s.room)) small small' missing held here
          (there q (λ same. ne (sym same)) ∙ gone ∙ dropped)
          (λ r r_p r_q. there r r_p ∙ kept r r_q);
    clocked = update_page_entry-IsClocked middle middle_clocked p small _;
    spare = s.spare;
    room = s.room;
    pages = filled-pages memory f (block p) s.residents.size whole s.pages;
  }
    where
      middle : PageTable
      middle = update_page_entry table old q

      middle_clocked : IsClocked middle
      middle_clocked = update_page_entry-IsClocked table s.clocked q small' old

      ne : p ≢ q
      ne same = none-ne-some (sym missing ∙ ap (mapping table) same ∙ held)

      gone : mapping middle q ≡ frame_of old
      gone = (mapping-update_page_entry table s.clocked q small' old).0

      dropped : frame_of old ≡ none
      dropped = ground arith

      kept : (r : ℕ) → r ≢ q → mapping middle r ≡ mapping table r
      kept = (mapping-update_page_entry table s.clocked q small' old).1

      new : PageEntry
      new = record e { frame_number = f; is_modified = false; is_valid = true }

      here : mapping (entered middle e f p) p ≡ some f
      here = (mapping-update_page_entry middle middle_clocked p small new).0

      there : (r : ℕ) → r ≢ p → mapping (entered middle e f p) r ≡ mapping middle r
      there = (mapping-update_page_entry middle middle_clocked p small new).1
