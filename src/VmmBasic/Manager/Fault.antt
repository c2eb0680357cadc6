-- ===== src/VmmBasic/Manager/Fault.antt =====
-- pa3_2/VirtualMemoryManager/vmm.cpp: a TLB miss and a page fault. No page gives way, since there are
-- as many frames as pages and a page faults once.
use unix_sys_prog.Common.{
  inl, inr, ℕ, ◌+◌, ◌<◌, ◌≡◌, ◌≢◌, refl, sym, ap, ◌∙◌, Option, some, none, arith, length, dec_lt,
  Option-cases,
}
use unix_sys_prog.Paging.{Bytes, load-IsResident, none-ne-some}
use unix_sys_prog.Paging.Count.{resident-full}
use unix_sys_prog.Vmm.Store.{Device, IsHealthy}
use unix_sys_prog.Vmm.Tlb.Coherence.{IsCoherent-mono}
use unix_sys_prog.Vmm.Manager.Fault.{get_page-IsHealthy}
use unix_sys_prog.VmmBasic.Table
use unix_sys_prog.VmmBasic.Table.{
  PageEntry, PageTable, mapping, frame_of, entry_at, update_page_entry, mapping-update_page_entry,
  length-update_page_entry, mapping-initialize, length-initialize,
}
use unix_sys_prog.VmmBasic.Manager.{Vmm, Locals, page_fault, miss}
use unix_sys_prog.VmmBasic.Manager.Sound.{answered, IsSound, entered, install_lem, filled-pages}

module _ {block : ℕ → Bytes} (device : Device) (locals : Locals) (healthy : IsHealthy device block)
    (sized : length locals.page ≡ 256) where
  -- What an operation for page `p` leads to: the page is mapped to the frame.
  pub record Leads (v : Vmm) (p : ℕ) (result : Vmm × Option ℕ) : Type 0 where
    pub v' : Vmm
    pub k' : ℕ
    pub f : ℕ
    pub done : result ≡ (v', some f)
    pub sound : IsSound block k' v'
    pub placed : mapping v'.table p ≡ some f
    pub lookups : v'.pagelookups ≡ v.pagelookups
    pub answers : answered v' ≡ answered v + 1

  page_fault-Leads :
      (k : ℕ) (v : Vmm) (p : ℕ) (entry : PageEntry)
      → IsSound block k v
      → p < 256
      → mapping v.table p ≡ none
      → Leads v p (page_fault device locals v p entry)
  unfolding page_fault
  page_fault-Leads k v p entry s small missing =
      rw (get_page-IsHealthy device block locals.page p healthy sized small) (record {
        v' = _;
        k' = k + 1;
        f = k;
        done =
            install_lem (record v { pagefaults = v.pagefaults + 1 }) p k entry (block p)
              (s.next room) room (s.pages k room) (healthy.whole p small);
        sound = record {
          residents =
              load-IsResident (mapping (entered v.table entry k p)) p s.residents small room missing
                new.0 new.1;
          size = length-update_page_entry v.table p _ ∙ s.size;
          next = λ more_. omega arith;
          pages =
              filled-pages v.memory k (block p) s.residents.size (healthy.whole p small) s.pages;
          coherent =
              IsCoherent-mono (mapping v.table) (mapping (entered v.table entry k p)) v.tlb
                (λ q g e.
                  new.1 q (λ same. none-ne-some (sym missing ∙ ap (mapping v.table) (sym same) ∙ e))
                  ∙ e)
                s.coherent;
        };
        placed = new.0;
        lookups = refl;
        answers = omega arith;
      })
    where
      room : k < 256
      room = elim (dec_lt k 256) [
        | yes lt ↦ lt
        | no full ↦ absurd (
            resident-full 256 (mapping v.table) p (omega (arith, s.residents.counted)) small
              missing)
      ]

      new :
          (mapping (entered v.table entry k p) p ≡ some k)
          × ((q : ℕ) → q ≢ p → mapping (entered v.table entry k p) q ≡ mapping v.table q)
      new = mapping-update_page_entry v.table p _ s.size small

  lookup_lem :
      (t : PageTable) (p : ℕ) (target : PageEntry)
      → p < 256
      → (e : PageEntry) × (Table.lookup t p target ≡ some e) × (frame_of e ≡ mapping t p)
  unfolding Table.lookup Table.assign
  lookup_lem t p target small = (Table.assign target (entry_at t p), ground arith, ground arith)

  pub miss-Leads :
      (k : ℕ) (v : Vmm) (p : ℕ) → IsSound block k v → p < 256 → Leads v p (miss device locals v p)
  unfolding miss
  miss-Leads k v p s small =
      let (e, looked, framed) = lookup_lem v.table p locals.page_entry small in
      elim (Option-cases (mapping v.table p)) [
        | inl missing ↦
            let r = page_fault-Leads k v p e s small missing in
            record {
              v' = r.v';
              k' = r.k';
              f = r.f;
              done = ground (arith, looked, framed, missing, r.done);
              sound = r.sound;
              placed = r.placed;
              lookups = r.lookups;
              answers = r.answers;
            }
        | inr (f, held) ↦ record {
          v' = record v { pagehits = v.pagehits + 1 };
          k' = k;
          f = f;
          done = ground (arith, looked, framed, held);
          sound = record {
            residents = s.residents;
            size = s.size;
            next = s.next;
            pages = s.pages;
            coherent = s.coherent;
          };
          placed = held;
          lookups = refl;
          answers = omega arith;
        }
      ]
