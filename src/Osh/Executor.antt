-- ===== src/Osh/Executor.antt =====
-- a2/osh/executor.cpp: class Executor, as the parent process sees it. The system is a parameter: what
-- `pipe`, `fork` and `waitpid` answer may depend on all that was called before.
pub mod Order
pub mod Conditions
use unix_sys_prog.Common.{
  ℕ, zero, suc, ◌+◌, Bool, true, false, not, ◌&&◌, ◌||◌, ◌⊎◌, inl, inr, Option, some, none, List,
  [], ◌∷◌, ◌++◌, ◌==◌, if◌then◌else◌, drop,
}
use unix_sys_prog.Common.Int.{ℤ, pos, negsuc}
use unix_sys_prog.Common.Text.{Text, codes, text_eq}
use unix_sys_prog.Osh.Symbols.{
  InputMode, i_stdin, i_file, i_pipe, OutputMode, o_stdout, o_file_new, o_append, o_pipe,
  RunNextCommandSymbol, r_exec_any, r_exec_onsuccess, r_exec_onfailure, status_success,
  exit_command,
}
use unix_sys_prog.Osh.Command.{Command, get_executable, set_input_fid, set_output_fid}
use unix_sys_prog.Osh.Parser.{is_pipe}

-- The calls of the parent that have an effect.
pub data Event : Type 0 where
  -- `pipe`, with the read and the write end.
  piped : ℕ → ℕ → Event
  pipe_failed : ℕ → Event
  -- `fork`, with the command that the child runs and its process id.
  forked : Command → ℕ → Event
  closed : ℕ → Event
  -- `waitpid`, with the status it stores.
  waited : ℕ → ℤ → Event

pub record System : Type 0 where
  -- The errno, or the two ends.
  pub pipe : List Event → ℕ ⊎ (ℕ × ℕ)
  -- The child's process id, or none for -1.
  pub fork : List Event → Option ℕ
  -- The status of a child.
  pub waitpid : List Event → ℕ → ℤ

-- Whether the status word is 0.
abbrev pub is_zero : ℤ → Bool
is_zero (pos zero) = true
is_zero z = false

unfoldable pub is_wait_for_child : Command → Bool
is_wait_for_child c = elim c.run_next_command [
  | r_exec_onfailure ↦ true
  | r_exec_onsuccess ↦ true
  | r_exec_any ↦ true
  | _ ↦ false
]

unfoldable pub is_exec_next_command : Command → Bool
is_exec_next_command c = elim c.run_next_command [ r_exec_any ↦ true | _ ↦ false ]

unfoldable pub is_skip_next_command : Command → Bool
is_skip_next_command c = elim c.run_next_command [
  | r_exec_onfailure ↦ is_zero c.rval
  | r_exec_onsuccess ↦ not (is_zero c.rval)
  | _ ↦ false
]

-- `isCommandExit`: none where `argv` is NULL.
unfoldable pub is_command_exit : Command → Option Bool
is_command_exit c = elim (get_executable c) [
  | none ↦ none
  | some executable ↦ some (text_eq executable exit_command)
]

-- What `pipeCommands` leaves behind; `ends` is the array `pipeid`.
pub record Piping : Type 0 where
  pub status : ℕ
  pub command : Command
  pub rest : List Command
  pub ends : ℕ × ℕ
  pub events : List Event

-- `pipe(pipeid)`: the status, the array and the calls after it.
unfoldable pub make_pipe : System → ℕ × ℕ → List Event → ℕ × (ℕ × ℕ) × List Event
make_pipe os ends events = elim (os.pipe events) [
  | inl errno ↦ (errno, ends, events ++ pipe_failed errno ∷ [])
  | inr (read, write) ↦ (status_success, (read, write), events ++ piped read write ∷ [])
]

-- The two ends are given to the command and to the next one: none where there is no next one, which
-- the method writes through.
unfoldable pub attach_pipe : ℕ → Command → List Command → ℕ × ℕ → List Event → Option Piping
attach_pipe status c [] ends events = none
attach_pipe status c (next ∷ others) ends events = some (record {
  status = status;
  command = set_output_fid (ends.1) c;
  rest = set_input_fid (ends.0) next ∷ others;
  ends = ends;
  events = events;
})

-- `pipeCommands` of a command and those after it.
unfoldable pub pipe_commands : System → Command → List Command → ℕ × ℕ → List Event → Option Piping
pipe_commands os c rest ends events =
    let (status, ends', events') = make_pipe os ends events in
    if is_pipe c.output_mode
    then (if status == status_success
        then attach_pipe status c rest ends' events'
        else some
            (record { status = status; command = c; rest = rest; ends = ends'; events = events' }))
    else some
        (record { status = status_success; command = c; rest = rest; ends = ends; events = events })

abbrev pub is_last : List Command → Bool
is_last [] = true
is_last (c ∷ rest) = false

-- The parent's branch up to the wait: the write end is closed, and the child is waited for if a
-- connector asks for its status or nothing follows.
unfoldable pub after_fork : System → Piping → ℕ → Command × List Event
after_fork os p pid =
    let begun = p.events ++ forked p.command pid ∷ [] in
    let events = if is_pipe p.command.output_mode then begun ++ closed (p.ends.1) ∷ [] else begun in
    if is_wait_for_child p.command || is_last p.rest
    then (let rval = os.waitpid events pid in
        (record (p.command) { rval = rval }, events ++ waited pid rval ∷ []))
    else (p.command, events)

-- How `executeCommandList` ends, with the calls it has made.
pub data Ending : Type 0 where
  -- It returns the status, and whether the shell is to exit.
  returned : ℕ → Bool → List Event → Ending
  -- `exit(1)`, as no process could be forked.
  exited : List Event → Ending
  -- It reads or writes through a NULL pointer.
  crashed : Ending

-- The loop of `executeCommandList` with `left` rounds to go.
unfoldable pub execute_rounds : System → ℕ → List Command → ℕ → ℕ × ℕ → List Event → Ending
execute_rounds os zero commands status ends events = returned status false events
execute_rounds os (suc left) [] status ends events = returned status false events
execute_rounds os (suc left) (c ∷ rest) status ends events = elim (is_command_exit c) [
  | none ↦ crashed
  | some true ↦ returned status true events
  | some false ↦ elim (pipe_commands os c rest ends events) [
    | none ↦ crashed
    | some p ↦ elim (os.fork p.events) [
      | none ↦ exited p.events
      | some pid ↦
          let status' = if is_pipe c.output_mode then p.status else status in
          let (c', events') = after_fork os p pid in
          execute_rounds os left (if is_skip_next_command c' then drop 1 p.rest else p.rest) status'
            p.ends events'
    ]
  ]
]

-- `executeCommandList`; `ends` is what the array `pipeid` holds at first.
unfoldable pub execute_command_list : System → ℕ × ℕ → List Event → List Command → Ending
execute_command_list os ends events commands =
    execute_rounds os 20 commands status_success ends events
