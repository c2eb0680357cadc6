-- ===== src/Vmm/Manager/Reading.antt =====
-- vmm.cpp: what `readByte` returns, one read and then a run of reads.
use unix_sys_prog.Common.{
  ℕ, ◌+◌, ◌<◌, ◌≤◌, ◌≡◌, ◌⊎◌, inl, refl, sym, ap, ◌∙◌, Option, some, none, List, dec_lt, [], ◌∷◌,
  map, arith, length, length-replicate, get_or-replicate, replicate,
}
use unix_sys_prog.Paging.{Bytes, IsResident-none, some_eq}
use unix_sys_prog.Paging.Count.{resident-full}
use unix_sys_prog.Vmm.Address.{
  get_page_number_from_logical_address, get_offset_from_logical_address, join_physical_address,
}
use unix_sys_prog.Vmm.Address.Split.{page_number-lt, logical_offset-lt}
use unix_sys_prog.Vmm.Memory
use unix_sys_prog.Vmm.Memory.Access.{read_byte_lem, byte_at}
use unix_sys_prog.Vmm.Memory.{frame_at}
use unix_sys_prog.Vmm.Store.{Device, IsHealthy}
use unix_sys_prog.Vmm.Table.{ReplacementStrategy}
use unix_sys_prog.Vmm.Table.Lookup.{mapping, mapping-initialize, initialize-IsClocked}
use unix_sys_prog.Vmm.Tlb
use unix_sys_prog.Vmm.Tlb.Coherence.{IsCoherent, initialize-IsCoherent}
use unix_sys_prog.Vmm.Manager.{Vmm, Locals, Read, got, init, read_byte}
use unix_sys_prog.Vmm.Manager.Sound.{IsSound, push_frames-nil}
use unix_sys_prog.Vmm.Manager.Translate.{stored, translate-Translated, read_frame}

-- The invariant of a manager over a store with the given blocks: `k` of its `n` frames are in use.
abbrev pub IsSoundVmm : (ℕ → Bytes) → ℕ → ℕ → Vmm → Type 0
IsSoundVmm block n k v = IsSound block n k v.table v.memory v.working_set

-- The constructor's object.
pub init-IsSound :
    (block : ℕ → Bytes) (n : ℕ) (strategy : ReplacementStrategy)
    → IsSoundVmm block n 0 (init n strategy)
      × IsCoherent (mapping (init n strategy).table) (init n strategy).tlb
unfolding init Memory.initialize
init-IsSound block n strategy = (
  record {
    residents =
        IsResident-none _ (length-replicate 256 (replicate {A = ℕ} 256 0))
          (mapping-initialize strategy);
    clocked = initialize-IsClocked strategy;
    spare = push_frames-nil n;
    room = omega arith;
    pages = λ f lt.
        ap length (get_or-replicate 256 f (replicate {A = ℕ} 256 0) [] lt)
        ∙ length-replicate {A = ℕ} 256 0;
  },
  initialize-IsCoherent _,
)

module _ {block : ℕ → Bytes} (device : Device) (n : ℕ) (locals : Locals)
    (healthy : IsHealthy device block) (sized : length locals.page ≡ 256) (some_frame : 0 < n)
    (few : n ≤ 256) where
  -- What one read leads to.
  pub record ReadOf (k : ℕ) (v : Vmm) (a : ℕ) (v' : Vmm) (k' byte : ℕ) : Type 0 where
    pub sound : IsSoundVmm block n k' v'
    pub right :
        IsCoherent (mapping v.table) v.tlb
          ⊎ (Tlb.lookup v.tlb (get_page_number_from_logical_address a) ≡ none)
        → byte ≡ stored block a
    pub coherent :
        IsCoherent (mapping v.table) v.tlb
        → (mapping v.table (get_page_number_from_logical_address a) ≡ none → k < n)
        → IsCoherent (mapping v'.table) v'.tlb

  pub read_byte-ReadOf :
      (k : ℕ) (v : Vmm) (a : ℕ)
      → IsSoundVmm block n k v
      → (v' : Vmm) × (k' : ℕ) × (f : ℕ) × (byte : ℕ) × (read_byte device n locals v a
          ≡ (v', got (join_physical_address f (get_offset_from_logical_address a)) byte))
        × ReadOf k v a v' k' byte
  unfolding read_byte
  read_byte-ReadOf k v a s =
      let (v', k', f, done, t) =
        translate-Translated device n locals healthy sized some_frame few k
          (record v { pagelookups = v.pagelookups + 1 }) a s in
      let physical = join_physical_address f (get_offset_from_logical_address a) in
      (
        v',
        k',
        f,
        byte_at v'.memory physical,
        ground (arith, done, read_byte_lem v'.memory physical),
        record {
          sound = t.sound;
          right = λ c. some_eq (
              sym (read_byte_lem v'.memory physical)
              ∙ read_frame block n k' v' (get_page_number_from_logical_address a) f
                  (get_offset_from_logical_address a) t.sound few (t.right c)
                  (logical_offset-lt a));
          coherent = t.coherent;
        },
      )

module _ {block : ℕ → Bytes} (device : Device) (n k : ℕ) (locals : Locals) (v : Vmm) (a : ℕ)
    (healthy : IsHealthy device block) (sized : length locals.page ≡ 256) (some_frame : 0 < n)
    (few : n ≤ 256) (s : IsSoundVmm block n k v) where
  -- With any number of frames from 1 to 256, under either policy and whatever the TLB holds, a
  -- read of any address over a healthy store, from a state with the invariant of page table,
  -- frames and free frames, returns some byte, at the address's offset in some frame, and keeps
  -- the invariant.
  pub read_byte-IsSound :
      (v' : Vmm) × (k' f byte : ℕ) × (read_byte device n locals v a
        ≡ (v', got (join_physical_address f (get_offset_from_logical_address a)) byte))
      × IsSoundVmm block n k' v'
  read_byte-IsSound =
      let (v', k', f, byte, done, r) =
        read_byte-ReadOf device n locals healthy sized some_frame few k v a s in
      (v', k', f, byte, done, r.sound)

  -- If a read starts over a healthy store, with 1 to 256 frames and with the invariant, and the
  -- TLB agrees with the page table, or has no entry for the address's page, the byte is the one
  -- that the store holds at the address, also when a page has to be evicted for it.
  pub read_byte-stored :
      IsCoherent (mapping v.table) v.tlb
        ⊎ (Tlb.lookup v.tlb (get_page_number_from_logical_address a) ≡ none)
      → (v' : Vmm) × (k' physical : ℕ) × (read_byte device n locals v a
          ≡ (v', got physical (stored block a)))
        × IsSoundVmm block n k' v'
  read_byte-stored c =
      let (v', k', f, byte, done, r) =
        read_byte-ReadOf device n locals healthy sized some_frame few k v a s in
      let physical = join_physical_address f (get_offset_from_logical_address a) in
      (v', k', physical, done ∙ ap (λ (b : ℕ). (v', got physical b)) (r.right c), r.sound)

-- `Global::run` reads one address after the other.
pub read_all : Device → ℕ → Locals → Vmm → List ℕ → Vmm × List Read
read_all device n locals v [] = (v, [])
read_all device n locals v (a ∷ rest) =
    let (v', r) = read_byte device n locals v a in
    let (last, rs) = read_all device n locals v' rest in (last, r ∷ rs)

-- The values that reads deliver, in order; none for a read that failed.
pub value : Read → Option ℕ
value (got physical byte) = some byte
value r = none

-- The invariant with the TLB in agreement with the page table.
abbrev pub IsExact : (ℕ → Bytes) → ℕ → Vmm → Type 0
IsExact block n v = (k : ℕ) × IsSoundVmm block n k v × IsCoherent (mapping v.table) v.tlb

pub init-IsExact :
    (block : ℕ → Bytes) (n : ℕ) (strategy : ReplacementStrategy) → IsExact block n (init n strategy)
init-IsExact block n strategy = let (s, c) = init-IsSound block n strategy in (0, s, c)

module _ {block : ℕ → Bytes} (device : Device) (locals : Locals) (healthy : IsHealthy device block)
    (sized : length locals.page ≡ 256) where
  -- With as many frames as pages no page ever gives way.
  pub read_byte-IsExact :
      (v : Vmm) (a : ℕ)
      → IsExact block 256 v
      → (v' : Vmm) × (physical : ℕ) × (read_byte device 256 locals v a
          ≡ (v', got physical (stored block a)))
        × IsExact block 256 v'
  read_byte-IsExact v a (k, s, c) =
      let (v', k', f, byte, done, r) =
        read_byte-ReadOf device 256 locals healthy sized (omega arith) (omega arith) k v a s in
      (
        v',
        join_physical_address f (get_offset_from_logical_address a),
        done
            ∙ ap
                (λ (b : ℕ).
                  (v', got (join_physical_address f (get_offset_from_logical_address a)) b))
                (r.right (inl c)),
        (k', r.sound, r.coherent c (vacant k v a s)),
      )
    where
      vacant :
          (k : ℕ) (v : Vmm) (a : ℕ)
          → IsSoundVmm block 256 k v
          → mapping v.table (get_page_number_from_logical_address a) ≡ none
          → k < 256
      vacant k v a s missing = elim (dec_lt k 256) [
        | yes lt ↦ lt
        | no full ↦ absurd (
            resident-full 256 (mapping v.table) (get_page_number_from_logical_address a)
              (omega (arith, s.residents.counted)) (page_number-lt a) missing)
      ]

  read_all-IsExact :
      (addresses : List ℕ) (v : Vmm)
      → IsExact block 256 v
      → map value (read_all device 256 locals v addresses).1
        ≡ map (λ a. some (stored block a)) addresses
  unfolding read_all value
  read_all-IsExact [] v e = refl
  read_all-IsExact (a ∷ rest) v e =
      let (v', physical, done, e') = read_byte-IsExact v a e in
      ground (arith, done, read_all-IsExact rest v' e')

  -- With 256 frames, under either policy, every run of reads from the constructor's object over a
  -- healthy store delivers for each address, in order, the byte that the store holds there.
  pub read_all-stored :
      (strategy : ReplacementStrategy) (addresses : List ℕ)
      → map value (read_all device 256 locals (init 256 strategy) addresses).1
        ≡ map (λ a. some (stored block a)) addresses
  read_all-stored strategy addresses =
      read_all-IsExact addresses (init 256 strategy) (init-IsExact block 256 strategy)
