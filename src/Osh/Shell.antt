-- ===== src/Osh/Shell.antt =====
-- a2/osh/osh.cpp: class osh. The lines of the input are a parameter; after the last one, `getline`
-- leaves an empty line. The logger, which is off, and what is written to the terminal are left out.
pub mod Lines
pub mod Sessions
use unix_sys_prog.Common.{
  ℕ, zero, suc, ◌+◌, Bool, true, false, Option, some, none, List, [], ◌∷◌, ◌++◌, ◌==◌,
  if◌then◌else◌, length,
}
use unix_sys_prog.Common.Text.{Text}
use unix_sys_prog.Osh.Symbols.{status_success}
use unix_sys_prog.Osh.Input.{InputHandler, clear, read_input}
use unix_sys_prog.Osh.Parser.{Parser, new_parser, Chain, get_command_list}
use unix_sys_prog.Osh.Executor.{
  Event, System, Ending, returned, exited, crashed, execute_command_list,
}

pub record Osh : Type 0 where
  pub input_handler : InputHandler
  pub parser : Parser

abbrev pub new_osh : Osh
new_osh = record {
  input_handler = clear (record { buffer = []; tokens = []; token_index = 0; token_length = 0 });
  parser = new_parser;
}

-- How a session ends, with the calls that were made.
pub data Session : Type 0 where
  -- `run` returns the status of the last line.
  finished : ℕ → List Event → Session
  -- The process exits as it cannot fork.
  aborted : List Event → Session
  -- The shell dies of a NULL pointer.
  died : Session
  -- A loop of the parser outlasts the fuel.
  hung : Session

-- The loop of `run` with `left` rounds to go. `ends` is what the array in `executeCommandList` holds.
unfoldable pub shell_rounds : ℕ → System → ℕ × ℕ → ℕ → Osh → List Text → ℕ → List Event → Session
shell_rounds fuel os ends zero o lines status events = finished status events
shell_rounds fuel os ends (suc left) o lines status events =
    let line : Text = elim lines [ [] ↦ [] | l ∷ rest ↦ l ] in
    let after : List Text = elim lines [ [] ↦ [] | l ∷ rest ↦ rest ] in
    elim (read_input line (clear o.input_handler)) [
      | none ↦ hung
      | some h ↦ elim (get_command_list fuel o.parser h) [
        | none ↦ hung
        | some chain ↦
            let o' : Osh = record { input_handler = chain.handler; parser = chain.parser } in
            if chain.status == status_success
            then elim (execute_command_list os ends events chain.commands) [
              | exited events' ↦ aborted events'
              | crashed ↦ died
              | returned _ true events' ↦ finished chain.status events'
              | returned _ false events' ↦
                  shell_rounds fuel os ends left o' after chain.status events'
            ]
            else shell_rounds fuel os ends left o' after chain.status events
      ]
    ]

-- `run`
unfoldable pub shell_run : ℕ → System → ℕ × ℕ → List Text → Session
shell_run fuel os ends lines = shell_rounds fuel os ends 23 new_osh lines status_success []
