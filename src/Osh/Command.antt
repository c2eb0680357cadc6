-- ===== src/Osh/Command.antt =====
-- a2/osh/command.h: class Command. A chain of commands is a list: the field `next` is the rest of
-- it. The setters that store their argument are record updates; the dumps are left out.
use unix_sys_prog.Common.{ℕ, Option, some, none, List, [], ◌∷◌, if◌then◌else◌}
use unix_sys_prog.Common.Int.{ℤ, negsuc}
use unix_sys_prog.Common.Text.{Text, text_eq}
use unix_sys_prog.Osh.Symbols.{
  InputMode, i_stdin, OutputMode, o_stdout, RunNextCommandSymbol, r_redir_stdout, r_redir_stdin,
  r_append_stdout, r_redir_pipe, r_exec_any, r_exec_onsuccess, r_exec_onfailure, r_none, ParseState,
  new_command, redir_stdout, redir_stdin, append_stdout, redir_pipe, exec_any, exec_onsuccess,
  exec_onfailure, invalid_fid, invalid_pid,
}

pub record Command : Type 0 where
  pub parse_state : ParseState
  pub bin_to_execute : Text
  -- none for NULL; the NULL that ends the array is the end of the list.
  pub argv : Option (List Text)
  pub input_mode : InputMode
  pub input_fid : ℕ
  pub input_filename : Text
  pub output_mode : OutputMode
  pub output_fid : ℕ
  pub output_filename : Text
  pub run_next_command : RunNextCommandSymbol
  pub pid : ℕ
  pub rval : ℤ

-- The constructor.
abbrev pub fresh : Command
fresh = record {
  parse_state = new_command;
  bin_to_execute = [];
  argv = none;
  input_mode = i_stdin;
  input_fid = invalid_fid;
  input_filename = [];
  output_mode = o_stdout;
  output_fid = invalid_fid;
  output_filename = [];
  run_next_command = r_none;
  pid = invalid_pid;
  rval = negsuc 0;
}

-- What `set_runNextCommand(string)` stores: the connector of a symbol, or what was there.
unfoldable pub symbol_or : Text → RunNextCommandSymbol → RunNextCommandSymbol
symbol_or symbol old =
    if text_eq symbol redir_stdout
    then r_redir_stdout
    else if text_eq symbol redir_stdin
    then r_redir_stdin
    else if text_eq symbol redir_pipe
    then r_redir_pipe
    else if text_eq symbol append_stdout
    then r_append_stdout
    else if text_eq symbol exec_any
    then r_exec_any
    else if text_eq symbol exec_onfailure
    then r_exec_onfailure
    else if text_eq symbol exec_onsuccess
    then r_exec_onsuccess
    else old

unfoldable pub set_run_next_command : Text → Command → Command
set_run_next_command symbol c = record c { run_next_command = symbol_or symbol c.run_next_command }

unfoldable pub set_output_fid : ℕ → Command → Command
set_output_fid fid c = record c { output_fid = fid }

unfoldable pub set_input_fid : ℕ → Command → Command
set_input_fid fid c = record c { input_fid = fid }

-- `addToList`: the command goes in behind the first one.
unfoldable pub add_to_list : Command → List Command → List Command
add_to_list command [] = command ∷ []
add_to_list command (c ∷ rest) = c ∷ command ∷ rest

-- `get_executable`: none where `argv` is NULL, which the method reads through.
unfoldable pub get_executable : Command → Option Text
get_executable c = elim c.argv [
  | none ↦ none
  | some words ↦ elim words [ [] ↦ some [] | w ∷ rest ↦ some w ]
]
