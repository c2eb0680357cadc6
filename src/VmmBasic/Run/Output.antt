-- ===== src/VmmBasic/Run/Output.antt =====
-- pa3_2/VirtualMemoryManager/main.cpp: what the program prints.
use unix_sys_prog.Vmm.Manager.Translate.{stored}
use unix_sys_prog.Common.{
  ℕ, ◌+◌, ◌≡◌, refl, ap, inr, some, none, List, [], ◌∷◌, map, arith, length, ltb, false, ◌<◌,
}
use unix_sys_prog.Common.Text.{Text}
use unix_sys_prog.Paging.{Bytes}
use unix_sys_prog.Vmm.Store.{Device, IsHealthy}
use unix_sys_prog.Vmm.Run.{Line, printed, Statistics}
use unix_sys_prog.Vmm.Run.Output.{address, seen, expected, IsTally}
use unix_sys_prog.VmmBasic.Manager.{Locals, init, get_stats}
use unix_sys_prog.VmmBasic.Manager.Sound.{IsSound, init-IsSound, answered}
use unix_sys_prog.VmmBasic.Manager.Reading.{read_byte-Reads}
use unix_sys_prog.VmmBasic.Run.{Loop, after_read, round, rounds, Surroundings, run, execute, finish}

module _ {block : ℕ → Bytes} (device : Device) (locals : Locals) (healthy : IsHealthy device block)
    (sized : length locals.page ≡ 256) where
  -- What the loop prints, and what it has counted at its end.
  record Prints (s : Loop) (lines : List Text) (r : Loop × List Line) : Type 0 where
    pub shows : map seen r.1 ≡ map (expected block) lines
    pub lookups : r.0.vmm.pagelookups ≡ s.vmm.pagelookups + length lines
    pub answers : answered r.0.vmm ≡ answered s.vmm + length lines

  rounds-Prints :
      (lines : List Text) (k : ℕ) (s : Loop)
      → IsSound block k s.vmm
      → Prints s lines (rounds device locals s lines)
  unfolding rounds round after_read
  rounds-Prints [] k s sound = record { shows = refl; lookups = omega arith; answers = omega arith }
  rounds-Prints (line ∷ rest) k s sound =
      let r = read_byte-Reads device locals healthy sized k s.vmm (address line) sound in
      rw r.done (
        let next : Loop = record {
          vmm = r.v';
          physical_address = r.physical;
          byte = stored block (address line);
        } in
        let p = rounds-Prints rest r.k' next r.sound in
        record {
          shows = ap (λ l. expected block line ∷ l) p.shows;
          lookups = omega (arith, p.lookups, r.lookups);
          answers = omega (arith, p.answers, r.answers);
        })

-- With at least two arguments, over files that open and a healthy store, the first version of the
-- program prints a line for each line of the input, in order, with the 16-bit address that the text
-- stands for and the signed byte that the store holds at that address; and statistics whose total
-- is the number of the lines, of which the page faults and TLB hits together are no more.
pub basic_execute-printed :
    {block : ℕ → Bytes} (w : Surroundings) (argv lines : List Text)
    → IsHealthy w.device block
    → length w.locals.page ≡ 256
    → w.input ≡ inr lines
    → w.output ≡ none
    → 2 < length argv
    → (out : List Line) × (stats : Statistics) × (execute w argv ≡ some (printed out stats))
      × (map seen out ≡ map (expected block) lines)
      × IsTally (length lines) stats
unfolding execute run finish get_stats init
basic_execute-printed {block} w argv lines healthy sized reads writes enough =
    let start : Loop = record {
      vmm = init;
      physical_address = w.physical_address;
      byte = w.byte;
    } in
    let p = rounds-Prints w.device w.locals healthy sized lines 0 start (init-IsSound block) in
    let ran = rounds w.device w.locals start lines in
    let stats : Statistics = record {
      total_lookups = ran.0.vmm.pagelookups;
      page_faults = ran.0.vmm.pagefaults;
      tlb_hits = ran.0.vmm.tlbhits;
    } in
    let many : ltb (length argv) 3 ≡ false = ground arith in
    (
      ran.1,
      stats,
      rw (many, reads, writes) refl,
      p.shows,
      record { total = omega (arith, p.lookups); bounded = omega (arith, p.answers) },
    )
