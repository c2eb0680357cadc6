-- ===== src/Vmm/Tlb/Coherence.antt =====
-- tlb.cpp: when the cached translations agree with the page table's.
use unix_sys_prog.Common.{ℕ, zero, suc, ◌≡◌, true, some, List, [], ◌∷◌, arith, set, replicate}
use unix_sys_prog.Paging.Count.{Mapping}
use unix_sys_prog.Vmm.Tlb.{TlbEntry, no_entry, Tlb, initialize, lookup_entry, lookup, add_entry}

-- Every valid entry has the frame that the mapping gives.
abbrev pub Agree : Mapping → List TlbEntry → Type 0
Agree m [] = Unit {0}
Agree m (e ∷ es) = (e.valid ≡ true → m e.page_number ≡ some e.frame_number) × Agree m es

abbrev pub IsCoherent : Mapping → Tlb → Type 0
IsCoherent m tlb = Agree m tlb.table

Agree-hit :
    (m : Mapping) (es : List TlbEntry) (p f : ℕ)
    → Agree m es
    → lookup_entry es p ≡ some f
    → m p ≡ some f
unfolding lookup_entry
Agree-hit m [] p f a h = cc
Agree-hit m (e ∷ es) p f a h = ground (arith, a.0, Agree-hit m es p f a.1)

-- A hit in a coherent TLB is the page table's frame.
pub lookup-IsCoherent :
    (m : Mapping) (tlb : Tlb) (p f : ℕ) → IsCoherent m tlb → lookup tlb p ≡ some f → m p ≡ some f
unfolding lookup
lookup-IsCoherent m tlb p f a h = Agree-hit m tlb.table p f a h

Agree-set :
    (m : Mapping) (es : List TlbEntry) (i : ℕ) (e : TlbEntry)
    → m e.page_number ≡ some e.frame_number
    → Agree m es
    → Agree m (set es i e)
Agree-set m [] i e h a = tt
Agree-set m (x ∷ es) zero e h a = (λ _. h, a.1)
Agree-set m (x ∷ es) (suc i) e h a = (a.0, Agree-set m es i e h a.1)

pub add_entry-IsCoherent :
    (m : Mapping) (tlb : Tlb) (e : TlbEntry)
    → m e.page_number ≡ some e.frame_number
    → IsCoherent m tlb
    → IsCoherent m (add_entry tlb e)
unfolding add_entry
add_entry-IsCoherent m tlb e h a = Agree-set m tlb.table _ e h a

-- A mapping that keeps its pages keeps the coherence.
Agree-mono :
    (m m' : Mapping) (es : List TlbEntry)
    → ((p f : ℕ) → m p ≡ some f → m' p ≡ some f)
    → Agree m es
    → Agree m' es
Agree-mono m m' [] h a = tt
Agree-mono m m' (e ∷ es) h a =
    (λ v. h e.page_number e.frame_number (a.0 v), Agree-mono m m' es h a.1)

pub IsCoherent-mono :
    (m m' : Mapping) (tlb : Tlb)
    → ((p f : ℕ) → m p ≡ some f → m' p ≡ some f)
    → IsCoherent m tlb
    → IsCoherent m' tlb
IsCoherent-mono m m' tlb h a = Agree-mono m m' tlb.table h a

Agree-replicate : (m : Mapping) (n : ℕ) → Agree m (replicate n no_entry)
Agree-replicate m zero = tt
Agree-replicate m (suc n) = (λ v. cc, Agree-replicate m n)

pub initialize-IsCoherent : (m : Mapping) → IsCoherent m initialize
unfolding initialize
initialize-IsCoherent m = Agree-replicate m 16
