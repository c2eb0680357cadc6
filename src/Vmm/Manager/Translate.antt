-- ===== src/Vmm/Manager/Translate.antt =====
-- vmm.cpp: `translate` and `readByte` on every branch.
use unix_sys_prog.Common.{
  ℕ, ◌+◌, ◌<◌, ◌≤◌, ◌≡◌, ◌≢◌, ◌⊎◌, inl, inr, refl, sym, ap, ◌∙◌, true, some, none, arith, length,
  get_or, subst, Option-cases,
}
use unix_sys_prog.Paging.{Bytes, none-ne-some}
use unix_sys_prog.Vmm.Address.{
  get_page_number_from_logical_address, get_offset_from_physical_address,
  get_offset_from_logical_address, join_physical_address,
}
use unix_sys_prog.Vmm.Address.Split.{page_number-lt, split-join_physical_address}
use unix_sys_prog.Vmm.Memory
use unix_sys_prog.Vmm.Memory.Access.{read_byte_lem}
use unix_sys_prog.Vmm.Memory.{PhysicalMemory, frame_at}
use unix_sys_prog.Vmm.Store.{Device, IsHealthy}
use unix_sys_prog.Vmm.Table.{access_page}
use unix_sys_prog.Vmm.Table.Lookup.{mapping, mapping-access_page, lookup_lem}
use unix_sys_prog.Vmm.Tlb
use unix_sys_prog.Vmm.Tlb.{Tlb, TlbEntry, add_entry}
use unix_sys_prog.Vmm.Tlb.Coherence.{
  IsCoherent, lookup-IsCoherent, add_entry-IsCoherent, IsCoherent-mono,
}
use unix_sys_prog.Vmm.Manager.{Vmm, Locals, miss, translate}
use unix_sys_prog.Vmm.Manager.Sound.{IsSound, access_page-IsSound}
use unix_sys_prog.Vmm.Manager.Fault.{page_fault-Places}

-- What a TLB miss on page `p` leads to: the page is mapped to the frame, the invariant holds, and
-- as long as no page had to give way, every page that was mapped still is, to the same frame.
pub record Resolved (block : ℕ → Bytes) (n k : ℕ) (v : Vmm) (p : ℕ) (v' : Vmm) (k' f : ℕ)
    : Type 0 where
  pub sound : IsSound block n k' v'.table v'.memory v'.working_set
  pub placed : mapping v'.table p ≡ some f
  pub cached : v'.tlb ≡ v.tlb
  pub kept :
      (mapping v.table p ≡ none → k < n)
      → (q g : ℕ) → mapping v.table q ≡ some g
      → mapping v'.table q ≡ some g
  pub lost :
      mapping v.table p ≡ none
      → k ≡ n
      → (q : ℕ) × (mapping v.table q ≡ some f)
        × (mapping v'.table q ≡ none)
        × ((r : ℕ) → r ≢ p → r ≢ q → mapping v'.table r ≡ mapping v.table r)

module _ {block : ℕ → Bytes} (device : Device) (n : ℕ) (locals : Locals)
    (healthy : IsHealthy device block) (sized : length locals.page ≡ 256) (some_frame : 0 < n)
    (few : n ≤ 256) where
  miss-Resolved :
      (k : ℕ) (v : Vmm) (p : ℕ)
      → IsSound block n k v.table v.memory v.working_set
      → p < 256
      → (v' : Vmm) × (k' : ℕ) × (f : ℕ) × (miss device n locals v p ≡ (v', some f))
        × Resolved block n k v p v' k' f
  unfolding miss
  miss-Resolved k v p s small =
      let (e, looked, framed) = lookup_lem v.table s.clocked p small locals.page_entry in
      elim (Option-cases (mapping v.table p)) [
        | inl missing ↦
            let (v', k', f, faulted, l) =
              page_fault-Places device n k locals (record v { table = access_page v.table p }) p e
                healthy sized some_frame few (access_page-IsSound p s small) small
                (mapping-access_page v.table s.clocked p small p ∙ missing) in
            (
              v',
              k',
              f,
              ground (arith, looked, faulted, framed, missing),
              record {
                sound = l.sound;
                placed = l.placed;
                cached = l.cached;
                kept = λ vacant q g e.
                    l.kept (vacant missing) q g
                      (mapping-access_page v.table s.clocked p small q ∙ e);
                lost = λ _ full.
                    let (q, oldest, gone, others) = l.lost full in
                    (
                      q,
                      sym (mapping-access_page v.table s.clocked p small q) ∙ oldest.1,
                      gone,
                      λ r r_p r_q.
                          others r r_p r_q ∙ mapping-access_page v.table s.clocked p small r,
                    );
              },
            )
        | inr (f, held) ↦ (
          record v { table = access_page v.table p; pagehits = v.pagehits + 1 },
          k,
          f,
          ground (arith, looked, framed, held),
          record {
            sound = access_page-IsSound p s small;
            placed = mapping-access_page v.table s.clocked p small p ∙ held;
            cached = refl;
            kept = λ _ q g e. mapping-access_page v.table s.clocked p small q ∙ e;
            lost = λ missing _. absurd (none-ne-some (sym missing ∙ held));
          },
        )
      ]

  -- What `translate` leads to for an address of page `p`.
  pub record Translated (k : ℕ) (v : Vmm) (p : ℕ) (v' : Vmm) (k' f : ℕ) : Type 0 where
    pub sound : IsSound block n k' v'.table v'.memory v'.working_set
    pub right :
        IsCoherent (mapping v.table) v.tlb ⊎ (Tlb.lookup v.tlb p ≡ none)
        → mapping v'.table p ≡ some f
    pub coherent :
        IsCoherent (mapping v.table) v.tlb
        → (mapping v.table p ≡ none → k < n)
        → IsCoherent (mapping v'.table) v'.tlb
    pub renewed :
        Tlb.lookup v.tlb p ≡ none
        → v'.tlb ≡ add_entry v.tlb (record { page_number = p; frame_number = f; valid = true })
    pub lost :
        Tlb.lookup v.tlb p ≡ none
        → mapping v.table p ≡ none
        → k ≡ n
        → (q : ℕ) × (mapping v.table q ≡ some f)
          × (mapping v'.table q ≡ none)
          × ((r : ℕ) → r ≢ p → r ≢ q → mapping v'.table r ≡ mapping v.table r)
    pub unmoved :
        (Tlb.lookup v.tlb p ≡ none → mapping v.table p ≡ none → k < n)
        → (q g : ℕ) → mapping v.table q ≡ some g
        → mapping v'.table q ≡ some g

  pub translate-Translated :
      (k : ℕ) (v : Vmm) (a : ℕ)
      → IsSound block n k v.table v.memory v.working_set
      → (v' : Vmm) × (k' : ℕ) × (f : ℕ) × (translate device n locals v a
          ≡ (v', some (join_physical_address f (get_offset_from_logical_address a))))
        × Translated k v (get_page_number_from_logical_address a) v' k' f
  unfolding translate
  translate-Translated k v a s =
      let p = get_page_number_from_logical_address a in
      let small : p < 256 = page_number-lt a in
      elim (Option-cases (Tlb.lookup v.tlb p)) [
        | inl missed ↦
            let (v', k', f, done, r) = miss-Resolved k v p s small in
            let new : TlbEntry = record { page_number = p; frame_number = f; valid = true } in
            (
              record v' { tlb = add_entry v'.tlb new },
              k',
              f,
              ground (arith, missed, done),
              record {
                sound = r.sound;
                right = λ _. r.placed;
                coherent = λ c vacant. add_entry-IsCoherent (mapping v'.table) v'.tlb new r.placed (
                    subst (IsCoherent (mapping v'.table)) (sym r.cached) (
                      IsCoherent-mono (mapping v.table) (mapping v'.table) v.tlb (r.kept vacant)
                        c));
                renewed = λ _. ap (λ (t : Tlb.Tlb). add_entry t new) r.cached;
                lost = λ _ missing full. r.lost missing full;
                unmoved = λ vacant. r.kept (vacant missed);
              },
            )
        | inr (f, hit) ↦
            let (e, looked, _) = lookup_lem v.table s.clocked p small locals.page_entry in
            let same = mapping-access_page v.table s.clocked p small in
            (
              record v { table = access_page v.table p; tlbhits = v.tlbhits + 1 },
              k,
              f,
              ground (arith, hit, looked),
              record {
                sound = access_page-IsSound p s small;
                right = λ c. same p ∙ elim c [
                  | inl coherent ↦ lookup-IsCoherent (mapping v.table) v.tlb p f coherent hit
                  | inr missed ↦ absurd (none-ne-some (sym missed ∙ hit))
                ];
                coherent = λ c _.
                    IsCoherent-mono (mapping v.table) (mapping (access_page v.table p)) v.tlb
                      (λ q g e. same q ∙ e) c;
                renewed = λ missed. absurd (none-ne-some (sym missed ∙ hit));
                lost = λ missed. absurd (none-ne-some (sym missed ∙ hit));
                unmoved = λ _ q g e. same q ∙ e;
              },
            )
      ]

-- The byte of an address, by the contents of the store.
abbrev pub stored : (ℕ → Bytes) → ℕ → ℕ
stored block a =
    get_or (block (get_page_number_from_logical_address a)) (get_offset_from_logical_address a) 0

-- The frame of a mapped page holds the page's block.
pub read_frame :
    (block : ℕ → Bytes) (n k : ℕ) (v : Vmm) (p f offset : ℕ)
    → IsSound block n k v.table v.memory v.working_set
    → n ≤ 256
    → mapping v.table p ≡ some f
    → offset < 256
    → Memory.read_byte v.memory (join_physical_address f offset) ≡ some (get_or (block p) offset 0)
read_frame block n k v p f offset s few held small =
    let (frame, split, _) =
      split-join_physical_address f offset (omega (arith, s.residents.bound p f held, s.room))
        small in
    read_byte_lem v.memory (join_physical_address f offset)
    ∙ ap
        (λ (g : ℕ). some (
          get_or (frame_at v.memory g)
            (get_offset_from_physical_address (join_physical_address f offset)) 0))
        frame
    ∙ ap (λ (o : ℕ). some (get_or (frame_at v.memory f) o 0)) split
    ∙ ap (λ (page : Bytes). some (get_or page offset 0)) (s.residents.content p f held)
