-- ===== src/Osh/Executor/Conditions.antt =====
-- executor.cpp: what `&&`, `||` and a pipe with nothing behind it do in `executeCommandList`.
use unix_sys_prog.Common.{inr, ℕ, ◌≡◌, Bool, true, false, not, some, List, [], ◌∷◌, arith}
use unix_sys_prog.Common.Int.{ℤ}
use unix_sys_prog.Osh.Command.{Command}
use unix_sys_prog.Osh.Parser.{is_pipe}
use unix_sys_prog.Osh.Parser.Rounds.{Connector, onsuccess, onfailure}
use unix_sys_prog.Osh.Executor.{
  Event, System, crashed, is_zero, is_command_exit, make_pipe, attach_pipe, pipe_commands,
  execute_rounds, execute_command_list,
}

-- Whether `&&` or `||` leaves out the next command after a child with this status.
abbrev pub is_skipped : Connector → ℤ → Bool
is_skipped onsuccess rval = not (is_zero rval)
is_skipped onfailure rval = is_zero rval
is_skipped k rval = false

-- A command with words that is not `exit`.
pub record IsProgram (c : Command) : Type 0 where
  pub known : is_command_exit c ≡ some false
  pub unpiped : is_pipe c.output_mode ≡ false

-- A pipe with nothing behind it.
pub execute_command_list-pipe :
    (os : System) (ends made : ℕ × ℕ) (events : List Event) (c : Command)
    → is_command_exit c ≡ some false
    → is_pipe c.output_mode ≡ true
    → os.pipe events ≡ inr made
    → execute_command_list os ends events (c ∷ []) ≡ crashed
unfolding execute_command_list execute_rounds pipe_commands make_pipe attach_pipe
execute_command_list-pipe os ends made events c known piped makes =
    ground (arith, known, piped, makes)
