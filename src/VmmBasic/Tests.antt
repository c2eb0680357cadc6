-- ===== src/VmmBasic/Tests.antt =====
-- Tests and instances for pa3_2/VirtualMemoryManager.
use unix_sys_prog.VmmBasic.Run.Output.{basic_execute-printed}
use unix_sys_prog.VmmBasic.Run.{Surroundings, execute}
use unix_sys_prog.Vmm.Run.Output.{seen, expected, IsTally}
use unix_sys_prog.Vmm.Run.{Line, Statistics, printed}
use unix_sys_prog.Common.Text.{Text, codes}
use unix_sys_prog.Common.{
  ℕ, ◌*◌, ◌/◌, ◌≡◌, refl, ap, some, none, [], ◌∷◌, map, arith, replicate, length-replicate, List,
  inr,
}
use unix_sys_prog.Paging.{Bytes}
use unix_sys_prog.Vmm.Store.{Device, IsHealthy}
use unix_sys_prog.Vmm.Manager.Translate.{stored}
use unix_sys_prog.VmmBasic.Table.{zero_entry}
use unix_sys_prog.VmmBasic.Manager.{Locals, init}
use unix_sys_prog.VmmBasic.Manager.Reading.{read_all, byte_of, basic_read_all-stored}

-- A store whose page `p` is filled with the byte `p`.
abbrev plain_block : ℕ → Bytes
plain_block p = replicate 256 p

abbrev plain_device : Device
plain_device = record {
  lseek = λ position. none;
  read = λ position size. some (replicate size (position / 256));
  stale = λ size. replicate size 7;
}

plain_device-IsHealthy : IsHealthy plain_device plain_block
plain_device-IsHealthy = record {
  seeks = λ p lt. refl;
  reads = λ p lt.
      let whole : p * 256 / 256 ≡ p = omega arith in ap (λ (b : ℕ). some (replicate 256 b)) whole;
  sized = length-replicate {A = ℕ} 256 7;
  whole = λ p lt. length-replicate {A = ℕ} 256 p;
}

abbrev locals : Locals
locals = record { page_entry = zero_entry; page = replicate 256 7 }

basic_read_all-stored_example :
    map byte_of (read_all plain_device locals init (5 ∷ 261 ∷ 7 ∷ [])).1
    ≡ map (λ a. some (stored plain_block a)) (5 ∷ 261 ∷ 7 ∷ [])
basic_read_all-stored_example =
    basic_read_all-stored plain_device locals plain_device-IsHealthy
      (length-replicate {A = ℕ} 256 7) (5 ∷ 261 ∷ 7 ∷ [])

-- The input has the addresses 5 and 261.
abbrev input : List Text
input = codes "5" ∷ codes "261" ∷ []

abbrev surroundings : Surroundings
surroundings = record {
  device = plain_device;
  locals = locals;
  input = inr input;
  output = none;
  physical_address = 0;
  byte = 0;
  pagehits = 0;
}

abbrev arguments : List Text
arguments = codes "vmm" ∷ codes "store" ∷ codes "input" ∷ []

basic_execute-printed_example :
    (out : List Line) × (stats : Statistics) × (execute surroundings arguments
      ≡ some (printed out stats))
    × (map seen out ≡ map (expected plain_block) input)
    × IsTally 2 stats
basic_execute-printed_example =
    basic_execute-printed surroundings arguments input plain_device-IsHealthy
      (length-replicate {A = ℕ} 256 7) refl refl (omega arith)
