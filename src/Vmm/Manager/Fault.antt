-- ===== src/Vmm/Manager/Fault.antt =====
-- vmm.cpp: the page fault of `translate` places the page in a frame.
use unix_sys_prog.Common.{
  subst, ℕ, ◌+◌, ◌*◌, ◌-◌, ◌<◌, ◌≤◌, ◌≡◌, ◌≢◌, refl, sym, ap, ◌∙◌, true, false, Option, some, none,
  [], ◌∷◌, ◌++◌, arith, length, drop, drop_of_length, dec_lt,
}
use mathlib.Core.List.{append-nil}
use unix_sys_prog.Paging.{Bytes, none-ne-some}
use unix_sys_prog.Paging.Count.{resident-pos}
use unix_sys_prog.Vmm.Memory.{WorkingSet, frame_at, is_free_frame, get_free_frame, add_page}
use unix_sys_prog.Vmm.Page.{Page}
use unix_sys_prog.Vmm.Page.Copy.{assign-eq}
use unix_sys_prog.Vmm.Store.{Device, IsHealthy, get_page}
use unix_sys_prog.Vmm.Table.{
  PageEntry, PageTable, Found, entry_at, find_victim, rlookup, update_page_entry,
}
use unix_sys_prog.Vmm.Table.Lookup.{
  mapping, frame_of, mapping-update_page_entry, update_page_entry-IsClocked,
}
use unix_sys_prog.Vmm.Table.Victim.{age, IsOldest, find_victim-IsOldest}
use unix_sys_prog.Vmm.Table.Reverse.{rlookup_lem}
use unix_sys_prog.Vmm.Tlb.{Tlb, invalidate}
use unix_sys_prog.Vmm.Manager.{Vmm, Locals, take_frame, install, page_fault}
use unix_sys_prog.Vmm.Manager.Sound.{
  IsSound, count_up, count_up-vacant, count_up-full, filled, entered, load-IsSound, replace-IsSound,
}

-- A healthy store hands out the page's block, whatever the variables held.
pub get_page-IsHealthy :
    (device : Device) (block : ℕ → Bytes) (page : Page) (p : ℕ)
    → IsHealthy device block
    → length page ≡ 256
    → p < 256
    → get_page device page (p * 256) 256 ≡ (block p, 0)
unfolding get_page
get_page-IsHealthy device block page p h size small =
    let buffer : block p ++ drop (length (block p)) (device.stale 256) ≡ block p =
      ap (λ (n : ℕ). block p ++ drop n (device.stale 256)) (h.whole p small ∙ sym h.sized)
      ∙ ap (◌++◌ (block p)) (drop_of_length (device.stale 256))
      ∙ append-nil (block p) in
    ground (
      arith,
      h.seeks p small,
      h.reads p small,
      buffer,
      assign-eq page (block p) size (h.whole p small),
    )

module _ (number : ℕ) (locals : Locals) (v : Vmm) (p : ℕ) (entry : PageEntry) (page : Page) where
  -- With a free frame on the stack, the page goes there and the TLB is left alone.
  install-load :
      (k : ℕ) (rest : WorkingSet)
      → v.working_set ≡ k ∷ rest
      → k < number
      → k < 256
      → length (frame_at v.memory k) ≡ 256
      → length page ≡ 256
      → install number locals v p entry page ≡ (
        record v {
          working_set = rest;
          memory = filled v.memory k page;
          table = entered v.table entry k p;
        },
        some k,
      )
  unfolding install take_frame is_free_frame get_free_frame add_page
  install-load k rest top in_range small sized sized' =
      ground (arith, assign-eq (frame_at v.memory k) page sized sized')

  -- Without one, the victim's page is made invalid and the page goes to its frame. The TLB is left
  -- alone here as well.
  install-replace :
      (f q : ℕ) (old : PageEntry)
      → v.working_set ≡ []
      → find_victim v.table ≡ f
      → rlookup v.table f 255 locals.victim_entry
        ≡ record { success = true; pageno = q; entry = old }
      → old.is_valid ≡ true
      → f < number
      → length (frame_at v.memory f) ≡ 256
      → length page ≡ 256
      → install number locals v p entry page ≡ (
        record v {
          memory = filled v.memory f page;
          table = entered (update_page_entry v.table (record old { is_valid = false }) q) entry f p;
        },
        some f,
      )
  unfolding install take_frame is_free_frame add_page invalidate
  install-replace f q old full victim found valid in_range sized sized' =
      ground (arith, assign-eq (frame_at v.memory f) page sized sized')

valid_of : (e : PageEntry) (f : ℕ) → frame_of e ≡ some f → e.is_valid ≡ true
valid_of e f h = ground arith

-- What a page fault on page `p` leads to, from a table and a TLB to `v'`, with the page in frame `f`: the page is
-- mapped, and with no free frame the oldest page by the policy has lost its frame to it.
pub record Placement (block : ℕ → Bytes) (n k : ℕ) (table : PageTable) (tlb : Tlb) (p : ℕ)
    (v' : Vmm) (k' f : ℕ) : Type 0 where
  pub sound : IsSound block n k' v'.table v'.memory v'.working_set
  pub placed : mapping v'.table p ≡ some f
  pub cached : v'.tlb ≡ tlb
  pub kept : k < n → (q g : ℕ) → mapping table q ≡ some g → mapping v'.table q ≡ some g
  pub lost :
      k ≡ n
      → (q : ℕ) × IsOldest (age table.strategy) table f q
        × (mapping v'.table q ≡ none)
        × ((r : ℕ) → r ≢ p → r ≢ q → mapping v'.table r ≡ mapping table r)

abbrev pub Places : (ℕ → Bytes) → ℕ → ℕ → PageTable → Tlb → ℕ → Vmm × Option ℕ → Type 0
Places block n k table tlb p result =
    (v' : Vmm) × (k' : ℕ) × (f : ℕ) × (result ≡ (v', some f))
    × Placement block n k table tlb p v' k' f

module _ {block : ℕ → Bytes} (n : ℕ) (locals : Locals) (v : Vmm) (p : ℕ) (entry : PageEntry)
    (small : p < 256) (missing : mapping v.table p ≡ none) (whole : length (block p) ≡ 256)
    (few : n ≤ 256) where
  load-Places :
      (k : ℕ)
      → IsSound block n k v.table v.memory v.working_set
      → k < n
      → Places block n k v.table v.tlb p (install n locals v p entry (block p))
  load-Places k s vacant = (
    _,
    k + 1,
    k,
    install-load n locals v p entry (block p) k (count_up (k + 1) (n - (k + 1)))
        (s.spare ∙ count_up-vacant k n vacant) vacant (omega arith) (s.pages k (omega arith)) whole,
    record {
      sound = load-IsSound p entry s few vacant small missing whole;
      placed = new.0;
      cached = refl;
      kept = λ _ q g e.
          new.1 q (λ same. none-ne-some (sym missing ∙ ap (mapping v.table) (sym same) ∙ e)) ∙ e;
      lost = λ full. absurd (omega arith);
    },
  )
    where
      new :
          (mapping (entered v.table entry k p) p ≡ some k)
          × ((q : ℕ) → q ≢ p → mapping (entered v.table entry k p) q ≡ mapping v.table q)
      new = mapping-update_page_entry v.table s.clocked p small _

  evict-Places :
      (q : ℕ) (found : Found)
      → IsSound block n n v.table v.memory v.working_set
      → IsOldest (age v.table.strategy) v.table (find_victim v.table) q
      → rlookup v.table (find_victim v.table) 255 locals.victim_entry ≡ found
      → found.success ≡ true
      → found.pageno ≡ q
      → found.entry.is_valid ≡ true
      → Places block n n v.table v.tlb p (install n locals v p entry (block p))
  evict-Places q found s (q_small, held, oldest) searched success page valid = (
    _,
    n,
    f,
    install-replace n locals v p entry (block p) f q found.entry (s.spare ∙ count_up-full n) refl
        (ground arith) valid f_small (s.pages f (omega (arith, f_small))) whole,
    record {
      sound = replace-IsSound p q f entry off s few small q_small missing held refl whole;
      placed = new.0;
      cached = refl;
      kept = λ vacant. absurd (omega arith);
      lost = λ _. (
        q,
        (q_small, held, oldest),
        new.1 q apart ∙ dropped.0,
        λ r r_p r_q. new.1 r r_p ∙ dropped.1 r r_q,
      );
    },
  )
    where
      f : ℕ
      f = find_victim v.table

      f_small : f < n
      f_small = s.residents.bound q f held

      off : PageEntry
      off = record (found.entry) { is_valid = false }

      apart : q ≢ p
      apart same = none-ne-some (sym missing ∙ ap (mapping v.table) (sym same) ∙ held)

      middle : PageTable
      middle = update_page_entry v.table off q

      dropped : (mapping middle q ≡ none) × ((r : ℕ) → r ≢ q → mapping middle r ≡ mapping v.table r)
      dropped = mapping-update_page_entry v.table s.clocked q q_small off

      new :
          (mapping (entered middle entry f p) p ≡ some f)
          × ((r : ℕ) → r ≢ p → mapping (entered middle entry f p) r ≡ mapping middle r)
      new =
          mapping-update_page_entry middle
            (update_page_entry-IsClocked v.table s.clocked q q_small off) p small
            (record entry { frame_number = f; is_modified = false; is_valid = true })

  replace-Places :
      IsSound block n n v.table v.memory v.working_set
      → 0 < n
      → Places block n n v.table v.tlb p (install n locals v p entry (block p))
  replace-Places s some_frame =
      let (j, g, _, resides) =
        resident-pos 256 (mapping v.table) (omega (arith, s.residents.counted)) in
      let (q, oldest) =
        find_victim-IsOldest v.table j s.clocked (valid_of (entry_at v.table j) g resides) in
      let (success, page, valid) =
        rlookup_lem v.table q (find_victim v.table) 255 locals.victim_entry s.clocked oldest.0
          oldest.1 (λ r e. s.residents.distinct r q (find_victim v.table) e oldest.1) in
      evict-Places q _ s oldest refl success page (
        valid_of (rlookup v.table (find_victim v.table) 255 locals.victim_entry).entry
          (find_victim v.table) valid)

-- Over a healthy store, with 1 to 256 frames and from a state with the invariant, a page fault
-- for a page that is not mapped succeeds: the page is read, placed in the next free frame or,
-- with no frame free, in that of the page that is oldest by the policy, which loses it, and is
-- mapped there; the other pages keep their frames, the TLB is left alone, and the invariant holds
-- afterwards.
pub page_fault-Places :
    {block : ℕ → Bytes} (device : Device) (n k : ℕ) (locals : Locals) (v : Vmm) (p : ℕ)
    (entry : PageEntry)
    → IsHealthy device block
    → length locals.page ≡ 256
    → 0 < n
    → n ≤ 256
    → IsSound block n k v.table v.memory v.working_set
    → p < 256
    → mapping v.table p ≡ none
    → Places block n k v.table v.tlb p (page_fault device n locals v p entry)
unfolding page_fault
page_fault-Places {block} device n k locals v p entry h sized some_frame few s small missing =
    rw (get_page-IsHealthy device block locals.page p h sized small) (elim (dec_lt k n) [
      | yes vacant ↦
          load-Places n locals counted p entry small missing (h.whole p small) few k s vacant
      | no full ↦
          let e : k ≡ n = omega (arith, s.room) in
          subst (λ j. Places block n j v.table v.tlb p (install n locals counted p entry (block p)))
            (sym e)
            (replace-Places n locals counted p entry small missing (h.whole p small) few
              (subst (λ j. IsSound block n j v.table v.memory v.working_set) e s) some_frame)
    ])
  where
    counted : Vmm
    counted = record v { pagefaults = v.pagefaults + 1 }
