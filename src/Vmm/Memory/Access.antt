-- ===== src/Vmm/Memory/Access.antt =====
-- physicalmemory.cpp: `readByte` and `writeByte`, as reads and writes of one flat memory.
use unix_sys_prog.Common.{
  ℕ, ◌<◌, ◌≡◌, ◌≢◌, inl, inr, sym, ap, ◌∙◌, some, List, [], arith, length, get_or, set,
  get_or-set_self, get_or-set_ne, ◌==◌, if◌then◌else◌,
}
use unix_sys_prog.Paging.Count.{ℕ-split}
use unix_sys_prog.Vmm.Address.{
  get_frame_number_from_physical_address, get_offset_from_physical_address,
}
use unix_sys_prog.Vmm.Address.Split.{physical_offset_lem, frame_number_lem}
use unix_sys_prog.Vmm.Memory.{PhysicalMemory, frame_at, read_byte, write_byte}
use unix_sys_prog.Vmm.Page.{Page}

-- The byte at an address.
abbrev pub byte_at : PhysicalMemory → ℕ → ℕ
byte_at m a =
    get_or (frame_at m (get_frame_number_from_physical_address a))
      (get_offset_from_physical_address a) 0

-- A read never fails: an offset always lies within the frame.
pub read_byte_lem : (m : PhysicalMemory) (a : ℕ) → read_byte m a ≡ some (byte_at m a)
unfolding read_byte
read_byte_lem m a = ground (arith, physical_offset_lem a)

-- Memory of 256 frames of 256 bytes.
pub record IsSized (m : PhysicalMemory) : Type 0 where
  pub frames : length m.frames ≡ 256
  pub pages : (f : ℕ) → f < 256 → length (frame_at m f) ≡ 256

abbrev written : PhysicalMemory → ℕ → ℕ → PhysicalMemory
written m a byte =
    let f = get_frame_number_from_physical_address a in
    record m {
      frames = set m.frames f (set (frame_at m f) (get_offset_from_physical_address a) byte);
    }

write_byte_lem : (m : PhysicalMemory) (a byte : ℕ) → write_byte m a byte ≡ some (written m a byte)
unfolding write_byte
write_byte_lem m a byte = ground (arith, physical_offset_lem a)

module _ (frames : List Page) (f o byte : ℕ) (f_in : f < length frames) where
  abbrev new_page : Page
  new_page = set (get_or frames f []) o byte

  cell_same :
      o < length (get_or frames f []) → get_or (get_or (set frames f new_page) f []) o 0 ≡ byte
  cell_same o_in =
      ap (λ (page : Page). get_or page o 0) (get_or-set_self frames f new_page [] f_in)
      ∙ get_or-set_self (get_or frames f []) o byte 0 o_in

  cell_other :
      (g o' : ℕ)
      → (g ≡ f → o ≢ o')
      → get_or (get_or (set frames f new_page) g []) o' 0 ≡ get_or (get_or frames g []) o' 0
  cell_other g o' apart = elim (ℕ-split g f) [
    | inl same ↦
        ap (λ (h : ℕ). get_or (get_or (set frames f new_page) h []) o' 0) same
        ∙ ap (λ (page : Page). get_or page o' 0) (get_or-set_self frames f new_page [] f_in)
        ∙ get_or-set_ne (get_or frames f []) o o' byte 0 (apart same)
        ∙ ap (λ (h : ℕ). get_or (get_or frames h []) o' 0) (sym same)
    | inr ne ↦
        ap (λ (page : Page). get_or page o' 0)
          (get_or-set_ne frames f g new_page [] (λ e. ne (sym e)))
  ]

module _ (m : PhysicalMemory) (a : ℕ) (s : IsSized m) where
  f_in : get_frame_number_from_physical_address a < length m.frames
  f_in = omega (arith, s.frames, frame_number_lem a)

  o_in :
      get_offset_from_physical_address a
      < length (frame_at m (get_frame_number_from_physical_address a))
  o_in = omega (
    arith,
    physical_offset_lem a,
    s.pages (get_frame_number_from_physical_address a) (omega (arith, frame_number_lem a)),
  )

read_same :
    (m : PhysicalMemory) (a byte : ℕ) → IsSized m → read_byte (written m a byte) a ≡ some byte
read_same m a byte s =
    read_byte_lem (written m a byte) a
    ∙ ap some (
        cell_same m.frames (get_frame_number_from_physical_address a)
          (get_offset_from_physical_address a) byte (f_in m a s) (o_in m a s))

read_other :
    (m : PhysicalMemory) (a other byte : ℕ)
    → IsSized m
    → a < 65536
    → other < 65536
    → other ≢ a
    → read_byte (written m a byte) other ≡ read_byte m other
read_other m a other byte s a_small o_small ne =
    read_byte_lem (written m a byte) other
    ∙ ap some (
        cell_other m.frames (get_frame_number_from_physical_address a)
          (get_offset_from_physical_address a) byte (f_in m a s)
          (get_frame_number_from_physical_address other) (get_offset_from_physical_address other)
          (λ same e. ne (
            omega (
              arith,
              same,
              e,
              frame_number_lem a,
              frame_number_lem other,
              physical_offset_lem a,
              physical_offset_lem other,
            ))))
    ∙ sym (read_byte_lem m other)

-- A write never fails; then a read of its 16-bit address gives the byte, and a read of any other
-- 16-bit address gives what it gave before.
pub read_byte-write_byte :
    (m : PhysicalMemory) (a other byte : ℕ)
    → IsSized m
    → a < 65536
    → other < 65536
    → (m' : PhysicalMemory) × (write_byte m a byte ≡ some m')
      × (read_byte m' other ≡ (if other == a then some byte else read_byte m other))
read_byte-write_byte m a other byte s a_small o_small = (
  written m a byte,
  write_byte_lem m a byte,
  elim (ℕ-split other a) [
    | inl same ↦
        let here : read_byte (written m a byte) other ≡ some byte =
          ap (read_byte (written m a byte)) same ∙ read_same m a byte s in
        ground arith
    | inr ne ↦ ground (arith, read_other m a other byte s a_small o_small ne)
  ],
)
