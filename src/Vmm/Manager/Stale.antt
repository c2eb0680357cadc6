-- ===== src/Vmm/Manager/Stale.antt =====
-- vmm.cpp and tlb.cpp: `invalidate` clears the flag of a local copy, so an evicted page that is
-- cached stays cached, and reads of it go to the frame's new page.
use unix_sys_prog.Common.{
  ℕ, ◌<◌, ◌≤◌, ◌≡◌, inl, inr, refl, Option-cases, ◌≢◌, sym, ap, ◌∙◌, subst, Option, some, none,
  arith, length, get_or,
}
use unix_sys_prog.Paging.{Bytes, some_eq, none-ne-some}
use unix_sys_prog.Paging.Count.{ℕ-split}
use unix_sys_prog.Vmm.Address.{
  get_page_number_from_logical_address, get_offset_from_logical_address, join_physical_address,
}
use unix_sys_prog.Vmm.Address.Split.{logical_offset-lt}
use unix_sys_prog.Vmm.Memory
use unix_sys_prog.Vmm.Store.{Device, IsHealthy}
use unix_sys_prog.Vmm.Table.Lookup.{mapping}
use unix_sys_prog.Vmm.Tlb
use unix_sys_prog.Vmm.Tlb.{add_entry}
use unix_sys_prog.Vmm.Manager.{Vmm, Locals, got, translate, read_byte}
use unix_sys_prog.Vmm.Manager.Reading.{IsSoundVmm}
use unix_sys_prog.Vmm.Manager.Translate.{read_frame, Translated, translate-Translated}

-- A hit in the TLB is believed: the read goes to that frame, whichever page it holds.
hit_read :
    (block : ℕ → Bytes) (device : Device) (n k : ℕ) (locals : Locals) (v : Vmm) (b p f : ℕ)
    → IsSoundVmm block n k v
    → n ≤ 256
    → mapping v.table p ≡ some f
    → Tlb.lookup v.tlb (get_page_number_from_logical_address b) ≡ some f
    → (v' : Vmm) × (read_byte device n locals v b ≡ (
      v',
      got
          (join_physical_address f (get_offset_from_logical_address b))
          (get_or (block p) (get_offset_from_logical_address b) 0),
    ))
unfolding read_byte translate
hit_read block device n k locals v b p f s few held hit =
    ((read_byte device n locals v b).0, ground (arith, hit, bytes))
  where
    offset : ℕ
    offset = get_offset_from_logical_address b

    physical : ℕ
    physical = join_physical_address f offset

    bytes : Memory.read_byte v.memory physical ≡ some (get_or (block p) offset 0)
    bytes = read_frame block n k v p f offset s few held (logical_offset-lt b)

-- The page that lost its frame is the one that was mapped to it.
evicted_frame :
    (v v' : Vmm) (p q f g : ℕ)
    → (q' : ℕ) × (mapping v.table q' ≡ some f)
      × (mapping v'.table q' ≡ none)
      × ((r : ℕ) → r ≢ p → r ≢ q' → mapping v'.table r ≡ mapping v.table r)
    → mapping v'.table p ≡ some f
    → mapping v.table q ≡ some g
    → mapping v'.table q ≡ none
    → f ≡ g
evicted_frame v v' p q f g (q', held', gone', others) placed held gone = elim (ℕ-split q q') [
  | inl same ↦ some_eq (sym held' ∙ ap (mapping v.table) (sym same) ∙ held)
  | inr ne ↦ absurd (
      none-ne-some (
        sym gone
        ∙ others q (λ s. none-ne-some (sym gone ∙ ap (mapping v'.table) s ∙ placed)) ne
        ∙ held))
]

module _ {block : ℕ → Bytes} (device : Device) (n : ℕ) (locals : Locals)
    (healthy : IsHealthy device block) (sized : length locals.page ≡ 256) (some_frame : 0 < n)
    (few : n ≤ 256) where
  -- Suppose that no frame is free and that `translate` of an address `a` takes the frame of the page
  -- of another address `b`: that page was mapped before and is not mapped after. If the TLB still
  -- has its old frame, the next read of `b` returns the byte at the offset of `b` in the page of `a`.
  pub stale_read :
      (v v' : Vmm) (a b physical f : ℕ)
      → IsSoundVmm block n n v
      → translate device n locals v a ≡ (v', some physical)
      → mapping v.table (get_page_number_from_logical_address b) ≡ some f
      → mapping v'.table (get_page_number_from_logical_address b) ≡ none
      → Tlb.lookup v'.tlb (get_page_number_from_logical_address b) ≡ some f
      → (v'' : Vmm) × (read_byte device n locals v' b ≡ (
        v'',
        got (join_physical_address f (get_offset_from_logical_address b)) (
            get_or
              (block (get_page_number_from_logical_address a))
              (get_offset_from_logical_address b)
              0),
      ))
  stale_read v v' a b physical f s done held gone hit =
      let (u, k', g, done', t) =
        translate-Translated device n locals healthy sized some_frame few n v a s in
      let same : u ≡ v' = ap (λ (r : Vmm × Option ℕ). r.0) (sym done' ∙ done) in
      let gone' = subst (λ w. mapping w.table q ≡ none) (sym same) gone in
      let (missed, missing) = faulted k' g u t gone' in
      let placed = t.right (inr missed) in
      let frames : g ≡ f =
        evicted_frame v u p q g f (t.lost missed missing refl) placed held gone' in
      subst (Stale f) same (
        hit_read block device n k' locals u b p f t.sound few (placed ∙ ap some frames)
          (subst (λ w. Tlb.lookup w.tlb q ≡ some f) (sym same) hit))
    where
      p : ℕ
      p = get_page_number_from_logical_address a

      q : ℕ
      q = get_page_number_from_logical_address b

      Stale : ℕ → Vmm → Type 0
      Stale f w =
          (v'' : Vmm) × (read_byte device n locals w b ≡ (
            v'',
            got (join_physical_address f (get_offset_from_logical_address b))
                (get_or (block p) (get_offset_from_logical_address b) 0),
          ))

      faulted :
          (k' g : ℕ) (u : Vmm)
          → Translated device n locals healthy sized some_frame few n v p u k' g
          → mapping u.table q ≡ none
          → (Tlb.lookup v.tlb p ≡ none) × (mapping v.table p ≡ none)
      faulted k' g u t gone' = elim (Option-cases (Tlb.lookup v.tlb p)) [
        | inr (h, cached) ↦ absurd (
            none-ne-some
              (sym gone' ∙ t.unmoved (λ m. absurd (none-ne-some (sym m ∙ cached))) q f held))
        | inl missed ↦ elim (Option-cases (mapping v.table p)) [
          | inr (h, mapped) ↦ absurd (
              none-ne-some
                (sym gone' ∙ t.unmoved (λ _ m. absurd (none-ne-some (sym m ∙ mapped))) q f held))
          | inl missing ↦ (missed, missing)
        ]
      ]
