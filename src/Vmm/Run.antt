-- ===== src/Vmm/Run.antt =====
-- pa3_3/VMM2/main.cpp: `run`, from the arguments to the lines of the output. Files are parameters:
-- whether they open, and the lines of the input. A text is the list of its bytes. The arguments of
-- `sprintf` stand for the formatted text, and the two rates, which are floats, for their quotients.
pub mod Atoi
pub mod Output
use unix_sys_prog.Common.{
  ◌⊎◌, inl, inr, ℕ, zero, suc, ◌+◌, ◌-◌, ◌%◌, ◌^◌, Bool, true, false, Option, some, none, List, [],
  ◌∷◌, ◌++◌, length, get_or, ltb, if◌then◌else◌,
}
use unix_sys_prog.Common.Int.{ℤ, pos, negsuc, negate}
use unix_sys_prog.Common.Text.{Text, codes, text_eq}
use unix_sys_prog.Vmm.Run.Atoi.{atoi}
use unix_sys_prog.Vmm.Table.{ReplacementStrategy, fifo, lru}
use unix_sys_prog.Vmm.Store.{Device}
use unix_sys_prog.Vmm.Manager.{
  Vmm, Locals, Read, untranslated, unread, got, init, read_byte, get_stats,
}

-- `(VirtualAddress)address`
unfoldable pub to_virtual_address : ℤ → ℕ
to_virtual_address (pos n) = n % 2 ^ 16
to_virtual_address (negsuc n) = 2 ^ 16 - 1 - n % 2 ^ 16

-- `ch = byte`, a signed `char`, as `%d` prints it.
unfoldable pub to_char : ℕ → ℤ
to_char byte = if ltb byte 128 then pos byte else negate (256 - byte)

-- The variable `strategy` after the tests; `junk` is what it holds before.
unfoldable pub parse_strategy : Text → ReplacementStrategy → ReplacementStrategy
parse_strategy arg junk =
    if text_eq arg (codes "fifo") then fifo else if text_eq arg (codes "lru") then lru else junk

-- NumberOfFramesInPm. A negative number of frames acts as none at all: no frame is pushed, and every
-- frame number is too large.
unfoldable pub frame_count : ℤ → ℕ
frame_count (pos n) = n
frame_count (negsuc n) = 0

unfoldable pub number_of_frames : List Text → ℕ
unfolding frame_count
number_of_frames args = if ltb 4 (length args) then frame_count (atoi (get_or args 4 [])) else 256

-- The arguments of the first `sprintf`.
pub record Line : Type 0 where
  pub virtual_address : ℕ
  pub physical_address : ℕ
  pub value : ℤ

-- The variables that live across the rounds of the loop.
pub record Loop : Type 0 where
  pub vmm : Vmm
  pub physical_address : ℕ
  pub byte : ℕ

-- `vmm.readByte(virtualAddress, physicalAddress, byte)`: what a failure leaves in the variables.
unfoldable pub after_read : Loop → Vmm × Read → Loop
after_read s (v, untranslated) = record s { vmm = v }
after_read s (v, unread physical) = record s { vmm = v; physical_address = physical }
after_read s (v, got physical byte) = record { vmm = v; physical_address = physical; byte = byte }

module _ (device : Device) (number : ℕ) (locals : Locals) where
  -- One round of the loop.
  unfoldable pub round : Loop → Text → Loop × Line
  unfolding after_read to_char
  round s line =
      let virtual = to_virtual_address (atoi line) in
      let s' = after_read s (read_byte device number locals s.vmm virtual) in
      (
        s',
        record {
          virtual_address = virtual;
          physical_address = s'.physical_address;
          value = to_char s'.byte;
        },
      )

  -- `while(getline(input, line))`
  unfoldable pub rounds : Loop → List Text → Loop × List Line
  unfolding round
  rounds s [] = (s, [])
  rounds s (line ∷ lines) =
      let (s', out) = round s line in let (last, outs) = rounds s' lines in (last, out ∷ outs)

-- The arguments of the second `sprintf`.
pub record Statistics : Type 0 where
  pub total_lookups : ℕ
  pub page_faults : ℕ
  pub tlb_hits : ℕ

-- What `run` leaves behind: its return value, and what is written to the output file.
pub data Outcome : Type 0 where
  -- The input or the output did not open: the errno, and nothing is written.
  unopened : ℕ → Outcome
  printed : List Line → Statistics → Outcome

-- What the files and the uninitialised variables of `run` are.
pub record Surroundings : Type 0 where
  pub device : Device
  pub locals : Locals
  -- The lines of the input file, or the errno of its opening.
  pub input : ℕ ⊎ List Text
  -- The errno if the output file does not open.
  pub output : Option ℕ
  pub strategy : ReplacementStrategy
  pub physical_address : ℕ
  pub byte : ℕ
  pub pagehits : ℕ

unfoldable pub finish : Loop → List Line → ℕ → Outcome
unfolding get_stats
finish last lines junk =
    let (_, (lookups, faults, _, hits)) = get_stats last.vmm junk in
    printed lines (record { total_lookups = lookups; page_faults = faults; tlb_hits = hits })

-- `run` from the construction of the manager on.
unfoldable pub execute : Surroundings → ℕ → ReplacementStrategy → Outcome
unfolding rounds finish
execute w number strategy = elim w.input [
  | inl errno ↦ unopened errno
  | inr lines ↦ elim w.output [
    | some errno ↦ unopened errno
    | none ↦
        let start : Loop = record {
          vmm = init number strategy;
          physical_address = w.physical_address;
          byte = w.byte;
        } in
        let (last, out) = rounds w.device number w.locals start lines in finish last out w.pagehits
  ]
]

unfoldable pub run : Surroundings → List Text → Outcome
run w args = execute w (number_of_frames args) (parse_strategy (get_or args 3 []) w.strategy)
