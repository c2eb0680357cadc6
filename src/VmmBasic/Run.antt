-- ===== src/VmmBasic/Run.antt =====
-- pa3_2/VirtualMemoryManager/main.cpp: `run`, from the files to the lines of the output. The lines,
-- numbers and statistics that it prints are made as in pa3_3/VMM2/main.cpp; it takes neither a policy
-- nor a number of frames.
pub mod Output
use unix_sys_prog.Common.{
  ◌⊎◌, inl, inr, ℕ, ◌+◌, Option, some, none, List, [], ◌∷◌, length, ltb, if◌then◌else◌,
}
use unix_sys_prog.Common.Text.{Text}
use unix_sys_prog.Vmm.Store.{Device}
use unix_sys_prog.Vmm.Manager.{Read, untranslated, unread, got}
use unix_sys_prog.Vmm.Run.{
  to_virtual_address, to_char, Line, Statistics, Outcome, unopened, printed,
}
use unix_sys_prog.Vmm.Run.Atoi.{atoi}
use unix_sys_prog.VmmBasic.Manager.{Vmm, Locals, init, read_byte, get_stats}

-- The variables that live across the rounds of the loop.
pub record Loop : Type 0 where
  pub vmm : Vmm
  pub physical_address : ℕ
  pub byte : ℕ

-- `vmm.readByte(virtualAddress, physicalAddress, byte)`: what a failure leaves in the variables.
unfoldable pub after_read : Loop → Vmm × Read → Loop
after_read s (v, untranslated) = record s { vmm = v }
after_read s (v, unread physical) = record s { vmm = v; physical_address = physical }
after_read s (v, got physical byte) = record { vmm = v; physical_address = physical; byte = byte }

module _ (device : Device) (locals : Locals) where
  -- One round of the loop.
  unfoldable pub round : Loop → Text → Loop × Line
  unfolding after_read
  round s line =
      let virtual = to_virtual_address (atoi line) in
      let s' = after_read s (read_byte device locals s.vmm virtual) in
      (
        s',
        record {
          virtual_address = virtual;
          physical_address = s'.physical_address;
          value = to_char s'.byte;
        },
      )

  -- `while(getline(input, line))`
  unfoldable pub rounds : Loop → List Text → Loop × List Line
  unfolding round
  rounds s [] = (s, [])
  rounds s (line ∷ lines) =
      let (s', out) = round s line in let (last, outs) = rounds s' lines in (last, out ∷ outs)

-- What the files and the uninitialised variables of `run` are.
pub record Surroundings : Type 0 where
  pub device : Device
  pub locals : Locals
  -- The lines of the input file, or the errno of its opening.
  pub input : ℕ ⊎ List Text
  -- The errno if the output file does not open.
  pub output : Option ℕ
  pub physical_address : ℕ
  pub byte : ℕ
  pub pagehits : ℕ

unfoldable pub finish : Loop → List Line → ℕ → Outcome
unfolding get_stats
finish last lines junk =
    let (_, (lookups, faults, _, hits)) = get_stats last.vmm junk in
    printed lines (record { total_lookups = lookups; page_faults = faults; tlb_hits = hits })

unfoldable pub run : Surroundings → Outcome
unfolding rounds finish
run w = elim w.input [
  | inl errno ↦ unopened errno
  | inr lines ↦ elim w.output [
    | some errno ↦ unopened errno
    | none ↦
        let start : Loop = record {
          vmm = init;
          physical_address = w.physical_address;
          byte = w.byte;
        } in
        let (last, out) = rounds w.device w.locals start lines in finish last out w.pagehits
  ]
]

-- `main`: with fewer than two arguments, it only prints how to call it.
unfoldable pub execute : Surroundings → List Text → Option Outcome
unfolding run
execute w argv = if ltb (length argv) 3 then none else some (run w)
