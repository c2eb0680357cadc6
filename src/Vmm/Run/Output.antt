-- ===== src/Vmm/Run/Output.antt =====
-- main.cpp: what the program prints.
use unix_sys_prog.Common.{
  ℕ, ◌+◌, ◌≤◌, subst, ◌≡◌, refl, sym, ap, ◌∙◌, inr, none, List, [], ◌∷◌, map, arith, length, get_or,
}
use mathlib.Core.Path.{ap₂}
use unix_sys_prog.Common.Int.{ℤ}
use unix_sys_prog.Common.Text.{Text}
use unix_sys_prog.Paging.{Bytes}
use unix_sys_prog.Vmm.Store.{Device, IsHealthy}
use unix_sys_prog.Vmm.Table.{ReplacementStrategy}
use unix_sys_prog.Vmm.Manager.{Vmm, Locals, Read, untranslated, unread, got, read_byte, init}
use unix_sys_prog.Vmm.Manager.Reading.{IsExact, init-IsExact, read_byte-IsExact}
use unix_sys_prog.Vmm.Manager.Stats.{answered, read_byte-counts}
use unix_sys_prog.Vmm.Manager.Translate.{stored}
use unix_sys_prog.Vmm.Run.{
  to_virtual_address, to_char, Line, Loop, after_read, rounds, round, printed, Statistics,
  Surroundings, run, execute, parse_strategy, number_of_frames,
}
use unix_sys_prog.Vmm.Run.Atoi.{atoi}

-- The address that a line of the input stands for.
abbrev pub address : Text → ℕ
address line = to_virtual_address (atoi line)

-- The statistics of a run over some number of lines.
pub record IsTally (lines : ℕ) (s : Statistics) : Type 0 where
  pub total : s.total_lookups ≡ lines
  pub bounded : s.page_faults + s.tlb_hits ≤ lines

-- What a line shows of its input.
abbrev pub seen : Line → ℕ × ℤ
seen l = (l.virtual_address, l.value)

abbrev pub expected : (ℕ → Bytes) → Text → ℕ × ℤ
expected block line = (address line, to_char (stored block (address line)))

after_read-vmm : (s : Loop) (r : Vmm × Read) → (after_read s r).vmm ≡ r.0
unfolding after_read
after_read-vmm s (v, untranslated) = refl
after_read-vmm s (v, unread physical) = refl
after_read-vmm s (v, got physical byte) = refl

module _ (device : Device) (number : ℕ) (locals : Locals) where
  abbrev next : Loop → Text → Loop
  next s line = (round device number locals s line).0

  next-vmm :
      (s : Loop) (line : Text)
      → (next s line).vmm ≡ (read_byte device number locals s.vmm (address line)).0
  unfolding round
  next-vmm s line = after_read-vmm s (read_byte device number locals s.vmm (address line))

  -- The counters after the loop, over any store.
  rounds-counts :
      (lines : List Text) (s : Loop)
      → s.vmm.pagelookups ≡ answered s.vmm
      → let v = (rounds device number locals s lines).0.vmm in
        (v.pagelookups ≡ s.vmm.pagelookups + length lines) × (v.pagelookups ≡ answered v)
  unfolding rounds
  rounds-counts [] s h = (omega arith, h)
  rounds-counts (line ∷ rest) s h =
      let (one, balanced) = read_byte-counts device number locals s.vmm (address line) h in
      let e = next-vmm s line in
      let balanced' : (next s line).vmm.pagelookups ≡ answered (next s line).vmm =
        subst (λ v. v.pagelookups ≡ answered v) (sym e) balanced in
      let one' : (next s line).vmm.pagelookups ≡ s.vmm.pagelookups + 1 =
        subst (λ v. v.pagelookups ≡ s.vmm.pagelookups + 1) (sym e) one in
      let (more, end) = rounds-counts rest (next s line) balanced' in (omega arith, end)

module _ {block : ℕ → Bytes} (device : Device) (locals : Locals) (healthy : IsHealthy device block)
    (sized : length locals.page ≡ 256) where
  rounds-lines :
      (lines : List Text) (s : Loop)
      → IsExact block 256 s.vmm
      → map seen (rounds device 256 locals s lines).1 ≡ map (expected block) lines
  unfolding rounds
  rounds-lines [] s e = refl
  rounds-lines (line ∷ rest) s e =
      let (v', physical, done, e') =
        read_byte-IsExact device locals healthy sized s.vmm (address line) e in
      let there : (next device 256 locals s line).vmm ≡ v' =
        next-vmm device 256 locals s line ∙ ap (λ (r : Vmm × Read). r.0) done in
      let here : seen (round device 256 locals s line).1 ≡ expected block line =
        ap (λ (r : Vmm × Read). (address line, to_char (after_read s r).byte)) done in
      ap₂ ◌∷◌ here (rounds-lines rest _ (subst (IsExact block 256) (sym there) e'))

init-counts :
    (n : ℕ) (strategy : ReplacementStrategy)
    → ((init n strategy).pagelookups ≡ 0) × (answered (init n strategy) ≡ 0)
unfolding init
init-counts n strategy = (refl, refl)

execute-printed :
    {block : ℕ → Bytes} (w : Surroundings) (strategy : ReplacementStrategy) (lines : List Text)
    → IsHealthy w.device block
    → length w.locals.page ≡ 256
    → w.input ≡ inr lines
    → w.output ≡ none
    → (out : List Line) × (stats : Statistics) × (execute w 256 strategy ≡ printed out stats)
      × (map seen out ≡ map (expected block) lines)
      × IsTally (length lines) stats
unfolding execute
execute-printed {block} w strategy lines healthy sized reads writes = (
  ran.1,
  stats,
  ground (arith, reads, writes),
  rounds-lines w.device w.locals healthy sized lines start (init-IsExact block 256 strategy),
  record { total = omega (arith, counts.0); bounded = omega (arith, counts.0, counts.1) },
)
  where
    start : Loop
    start = record { vmm = init 256 strategy; physical_address = w.physical_address; byte = w.byte }

    ran : Loop × List Line
    ran = rounds w.device 256 w.locals start lines

    stats : Statistics
    stats = record {
      total_lookups = ran.0.vmm.pagelookups;
      page_faults = ran.0.vmm.pagefaults;
      tlb_hits = ran.0.vmm.tlbhits;
    }

    counts : (ran.0.vmm.pagelookups ≡ length lines) × (ran.0.vmm.pagelookups ≡ answered ran.0.vmm)
    counts =
        let (zero_lookups, zero_answers) = init-counts 256 strategy in
        let (n, a) =
          rounds-counts w.device 256 w.locals lines start (zero_lookups ∙ sym zero_answers) in
        (n ∙ omega (arith, zero_lookups), a)

-- With 256 frames (the default), under either policy, over files that open and a healthy store, the
-- program prints a line for each line of the input, in order, with the 16-bit address that the text
-- stands for and the signed byte that the store holds at that address; and statistics whose total
-- is the number of the lines, of which the page faults and TLB hits together are no more.
pub run-printed :
    {block : ℕ → Bytes} (w : Surroundings) (args lines : List Text)
    → IsHealthy w.device block
    → length w.locals.page ≡ 256
    → w.input ≡ inr lines
    → w.output ≡ none
    → number_of_frames args ≡ 256
    → (out : List Line) × (stats : Statistics) × (run w args ≡ printed out stats)
      × (map seen out ≡ map (expected block) lines)
      × IsTally (length lines) stats
unfolding run
run-printed {block} w args lines healthy sized reads writes frames = rw frames (
    execute-printed w (parse_strategy (get_or args 3 []) w.strategy) lines healthy sized reads
      writes)
