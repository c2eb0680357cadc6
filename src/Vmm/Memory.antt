-- ===== src/Vmm/Memory.antt =====
-- pa3_3/VMM2/physicalmemory.cpp: class WorkingSet, the stack of free frames, and class
-- PhysicalMemory, the frames. `number` stands for the global NumberOfFramesInPm.
pub mod Access
use unix_sys_prog.Common.{
  ℕ, zero, suc, ◌+◌, ◌%◌, Bool, true, false, Option, some, none, List, [], ◌∷◌, set, get_or,
  replicate, leb, if◌then◌else◌,
}
use unix_sys_prog.Common.Int.{ℤ, pos, negsuc}
use unix_sys_prog.Vmm.Address.{
  page_size, get_frame_number_from_physical_address, get_offset_from_physical_address,
}
use unix_sys_prog.Vmm.Page.{Page, get_byte, put_byte, assign}

-- The head of the list is the top of the stack.
abbrev pub WorkingSet : Type 0
WorkingSet = List ℕ

-- The loop of `emptyStack`.
unfoldable pub empty_stack : WorkingSet → WorkingSet
empty_stack [] = []
empty_stack (frame ∷ set) = empty_stack set

-- The loop of `initialize`, which pushes j = number - 1 down to 0.
unfoldable pub push_frames : ℕ → WorkingSet → WorkingSet
push_frames zero set = set
push_frames (suc j) set = push_frames j (j ∷ set)

unfoldable pub is_free_frame : WorkingSet → Bool
is_free_frame [] = false
is_free_frame (frame ∷ set) = true

-- `getFreeFrame`: -1 if there is none.
unfoldable pub get_free_frame : WorkingSet → WorkingSet × ℤ
get_free_frame [] = ([], negsuc 0)
get_free_frame (frame ∷ set) = (set, pos frame)

unfoldable pub add_to_free_frame : ℕ → WorkingSet → WorkingSet
add_to_free_frame frame set = frame ∷ set

pub record PhysicalMemory : Type 0 where
  pub frames : List Page
  pub frameno : ℕ

-- `initialize`: `resize` fills in pages of zeros, and -1 in a `uint8_t` is 255.
unfoldable pub initialize : PhysicalMemory
initialize = record { frames = replicate page_size (replicate page_size 0); frameno = 255 }

abbrev pub frame_at : PhysicalMemory → ℕ → Page
frame_at m f = get_or m.frames f []

unfoldable pub read_byte : PhysicalMemory → ℕ → Option ℕ
unfolding get_byte
read_byte m address =
    let framenum = get_frame_number_from_physical_address address in
    get_byte (frame_at m framenum) (get_offset_from_physical_address address)

-- `loadFrame`: the memory with the page in the frame, or status_failure.
unfoldable pub load_frame : ℕ → PhysicalMemory → ℕ → Page → Option PhysicalMemory
unfolding assign
load_frame number m frameno page =
    if leb number frameno
    then none
    else some (record m { frames = set m.frames frameno (assign (frame_at m frameno) page) })

unfoldable pub add_page : ℕ → PhysicalMemory → Page → ℕ → Option PhysicalMemory
unfolding load_frame
add_page number m page frameno = load_frame number m frameno page

unfoldable pub write_byte : PhysicalMemory → ℕ → ℕ → Option PhysicalMemory
unfolding put_byte
write_byte m address byte =
    let frameno = get_frame_number_from_physical_address address in
    elim (put_byte (frame_at m frameno) (get_offset_from_physical_address address) byte) [
      | none ↦ none
      | some page ↦ some (record m { frames = set m.frames frameno page })
    ]

-- `findVictim`, which the manager does not call.
unfoldable pub find_victim : ℕ → PhysicalMemory → PhysicalMemory × ℕ
find_victim number m =
    let victim = (m.frameno + 1) % number % 256 in (record m { frameno = victim }, victim)
