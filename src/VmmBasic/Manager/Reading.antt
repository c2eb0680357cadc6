-- ===== src/VmmBasic/Manager/Reading.antt =====
-- pa3_2/VirtualMemoryManager/vmm.cpp: what `readByte` returns, one read and then a run of reads.
use unix_sys_prog.Vmm.Manager.{Read, untranslated, unread, got}
use unix_sys_prog.Common.{
  inl, inr, ℕ, ◌+◌, ◌<◌, ◌≤◌, ◌≡◌, refl, ap, ◌∙◌, true, Option, some, none, List, [], ◌∷◌, map,
  arith, length, get_or, Option-cases,
}
use unix_sys_prog.Paging.{Bytes}
use unix_sys_prog.Paging.Count.{resident-le}
use unix_sys_prog.Vmm.Address.{
  get_page_number_from_logical_address, get_offset_from_logical_address,
  get_offset_from_physical_address, join_physical_address,
}
use unix_sys_prog.Vmm.Address.Split.{page_number-lt, logical_offset-lt, split-join_physical_address}
use unix_sys_prog.Vmm.Memory
use unix_sys_prog.Vmm.Memory.{PhysicalMemory, frame_at, find_victim, load_frame}
use unix_sys_prog.Vmm.Memory.Access.{read_byte_lem}
use unix_sys_prog.Vmm.Store.{Device, IsHealthy}
use unix_sys_prog.Vmm.Tlb
use unix_sys_prog.Vmm.Tlb.{TlbEntry, add_entry}
use unix_sys_prog.Vmm.Tlb.Coherence.{lookup-IsCoherent, add_entry-IsCoherent}
use unix_sys_prog.Vmm.Manager.Translate.{stored}
use unix_sys_prog.VmmBasic.Table.{mapping}
use unix_sys_prog.VmmBasic.Manager.{Vmm, Locals, init, translate, read_byte}
use unix_sys_prog.VmmBasic.Manager.Sound.{answered, IsSound, init-IsSound}
use unix_sys_prog.VmmBasic.Manager.Fault.{miss-Leads}

module _ {block : ℕ → Bytes} (device : Device) (locals : Locals) (healthy : IsHealthy device block)
    (sized : length locals.page ≡ 256) where
  -- The frame of a mapped page holds the page's block.
  read_frame :
      (k : ℕ) (v : Vmm) (p f offset : ℕ)
      → IsSound block k v
      → k ≤ 256
      → mapping v.table p ≡ some f
      → offset < 256
      → Memory.read_byte v.memory (join_physical_address f offset)
        ≡ some (get_or (block p) offset 0)
  read_frame k v p f offset s few held small =
      let (frame, split, _) =
        split-join_physical_address f offset (omega (arith, s.residents.bound p f held)) small in
      read_byte_lem v.memory (join_physical_address f offset)
      ∙ ap
          (λ (g : ℕ). some (
            get_or (frame_at v.memory g)
              (get_offset_from_physical_address (join_physical_address f offset)) 0))
          frame
      ∙ ap (λ (o : ℕ). some (get_or (frame_at v.memory f) o 0)) split
      ∙ ap (λ (page : Bytes). some (get_or page offset 0)) (s.residents.content p f held)

  pub record Reads (v : Vmm) (a : ℕ) (result : Vmm × Read) : Type 0 where
    pub v' : Vmm
    pub k' : ℕ
    pub physical : ℕ
    pub done : result ≡ (v', got physical (stored block a))
    pub sound : IsSound block k' v'
    pub lookups : v'.pagelookups ≡ v.pagelookups + 1
    pub answers : answered v' ≡ answered v + 1

  -- The physical address that `translate` finds.
  record Translates (v : Vmm) (a : ℕ) (result : Vmm × Option ℕ) : Type 0 where
    v' : Vmm
    k' : ℕ
    f : ℕ
    done : result ≡ (v', some (join_physical_address f (get_offset_from_logical_address a)))
    sound : IsSound block k' v'
    placed : mapping v'.table (get_page_number_from_logical_address a) ≡ some f
    lookups : v'.pagelookups ≡ v.pagelookups
    answers : answered v' ≡ answered v + 1

  translate-Translates :
      (k : ℕ) (v : Vmm) (a : ℕ) → IsSound block k v → Translates v a (translate device locals v a)
  unfolding translate
  translate-Translates k v a s =
      let p = get_page_number_from_logical_address a in
      elim (Option-cases (Tlb.lookup v.tlb p)) [
        | inl missed ↦
            let r = miss-Leads device locals healthy sized k v p s (page_number-lt a) in
            let new : TlbEntry = record { page_number = p; frame_number = r.f; valid = true } in
            record {
              v' = record (r.v') { tlb = add_entry r.v'.tlb new };
              k' = r.k';
              f = r.f;
              done = ground (arith, missed, r.done);
              sound = record {
                residents = r.sound.residents;
                size = r.sound.size;
                next = r.sound.next;
                pages = r.sound.pages;
                coherent =
                    add_entry-IsCoherent (mapping r.v'.table) r.v'.tlb new r.placed
                      r.sound.coherent;
              };
              placed = r.placed;
              lookups = r.lookups;
              answers = r.answers;
            }
        | inr (f, hit) ↦ record {
          v' = record v { tlbhits = v.tlbhits + 1 };
          k' = k;
          f = f;
          done = ground (arith, hit);
          sound = record {
            residents = s.residents;
            size = s.size;
            next = s.next;
            pages = s.pages;
            coherent = s.coherent;
          };
          placed = lookup-IsCoherent (mapping v.table) v.tlb p f s.coherent hit;
          lookups = refl;
          answers = omega arith;
        }
      ]

  pub read_byte-Reads :
      (k : ℕ) (v : Vmm) (a : ℕ) → IsSound block k v → Reads v a (read_byte device locals v a)
  unfolding read_byte
  read_byte-Reads k v a s =
      let counted : Vmm = record v { pagelookups = v.pagelookups + 1 } in
      let t = translate-Translates k counted a (record {
        residents = s.residents;
        size = s.size;
        next = s.next;
        pages = s.pages;
        coherent = s.coherent;
      }) in
      record {
        v' = t.v';
        k' = t.k';
        physical = join_physical_address t.f (get_offset_from_logical_address a);
        done = ground (
          arith,
          t.done,
          read_frame t.k' t.v' (get_page_number_from_logical_address a) t.f
              (get_offset_from_logical_address a) t.sound
              (omega (arith, t.sound.residents.counted, resident-le 256 (mapping t.v'.table)))
              t.placed (logical_offset-lt a),
        );
        sound = t.sound;
        lookups = t.lookups;
        answers = t.answers;
      }

-- `run` reads one address after the other.
pub read_all : Device → Locals → Vmm → List ℕ → Vmm × List Read
read_all device locals v [] = (v, [])
read_all device locals v (a ∷ rest) =
    let (v', r) = read_byte device locals v a in
    let (last, rs) = read_all device locals v' rest in (last, r ∷ rs)

-- The byte of a read that succeeded.
pub byte_of : Read → Option ℕ
byte_of untranslated = none
byte_of (unread physical) = none
byte_of (got physical byte) = some byte

module _ {block : ℕ → Bytes} (device : Device) (locals : Locals) (healthy : IsHealthy device block)
    (sized : length locals.page ≡ 256) where
  read_all-IsSound :
      (addresses : List ℕ) (k : ℕ) (v : Vmm)
      → IsSound block k v
      → map byte_of (read_all device locals v addresses).1
        ≡ map (λ a. some (stored block a)) addresses
  unfolding read_all byte_of
  read_all-IsSound [] k v s = refl
  read_all-IsSound (a ∷ rest) k v s =
      let r = read_byte-Reads device locals healthy sized k v a s in
      ground (arith, r.done, read_all-IsSound rest r.k' r.v' r.sound)

  -- Every run of reads from the constructor's object of the first version, over a healthy store,
  -- delivers for each address, in order, the byte that the store holds there.
  pub basic_read_all-stored :
      (addresses : List ℕ)
      → map byte_of (read_all device locals init addresses).1
        ≡ map (λ a. some (stored block a)) addresses
  basic_read_all-stored addresses = read_all-IsSound addresses 0 init (init-IsSound block)
