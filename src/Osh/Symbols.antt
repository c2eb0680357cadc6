-- ===== src/Osh/Symbols.antt =====
-- a2/osh/globals.h: the statuses, symbols and modes of the shell. `InPath`, `OutPath`, `Pipesym` and
-- `conditionalExec` are never assigned.
use unix_sys_prog.Common.{ℕ}
use unix_sys_prog.Common.Text.{Text, codes}

abbrev pub status_success : ℕ
status_success = 0

abbrev pub status_fail : ℕ
status_fail = 1

abbrev pub exit_command : Text
exit_command = codes "exit"

abbrev pub invalid_pid : ℕ
invalid_pid = 1

abbrev pub invalid_fid : ℕ
invalid_fid = 1

pub data InputMode : Type 0 where
  i_stdin i_file i_pipe : InputMode

pub data OutputMode : Type 0 where
  o_stdout o_file_new o_append o_pipe : OutputMode

pub data RunNextCommandSymbol : Type 0 where
  r_redir_stdout r_redir_stdin r_append_stdout r_redir_pipe : RunNextCommandSymbol
  r_exec_any r_exec_onsuccess r_exec_onfailure r_none : RunNextCommandSymbol

pub data ParseState : Type 0 where
  blank invalid need_token new_command in_path out_path : ParseState
  pipesym parsed executing conditional_exec : ParseState

abbrev pub redir_stdout : Text
redir_stdout = codes ">"

abbrev pub redir_stdin : Text
redir_stdin = codes "<"

abbrev pub append_stdout : Text
append_stdout = codes ">>"

abbrev pub redir_pipe : Text
redir_pipe = codes "|"

abbrev pub exec_any : Text
exec_any = codes ";"

abbrev pub exec_onsuccess : Text
exec_onsuccess = codes "&&"

abbrev pub exec_onfailure : Text
exec_onfailure = codes "||"

-- utils.h, `get_nextCommandString`
unfoldable pub get_next_command_string : RunNextCommandSymbol → Text
get_next_command_string r_redir_stdout = redir_stdout
get_next_command_string r_redir_stdin = redir_stdin
get_next_command_string r_append_stdout = append_stdout
get_next_command_string r_redir_pipe = redir_pipe
get_next_command_string r_exec_any = exec_any
get_next_command_string r_exec_onsuccess = exec_onsuccess
get_next_command_string r_exec_onfailure = exec_onfailure
get_next_command_string r_none = codes ""
