-- ===== src/Osh/Child/Redirects.antt =====
-- executor.cpp: the streams that a child's program runs with.
use unix_sys_prog.Common.{ℕ}
use unix_sys_prog.Common.Text.{Text}
use unix_sys_prog.Osh.Symbols.{i_stdin, i_file, i_pipe, o_stdout, o_file_new, o_append, o_pipe}
use unix_sys_prog.Osh.Command.{Command}
use unix_sys_prog.Osh.Child.{Streams}

-- Where a command of these modes reads and writes, when files open as descriptors `read` and `write`.
abbrev pub source : Command → ℕ → Streams → ℕ
source c read s = elim c.input_mode [ i_stdin ↦ s.stdin | i_file ↦ read | i_pipe ↦ c.input_fid ]

abbrev pub sink : Command → ℕ → Streams → ℕ
sink c write s = elim c.output_mode [
  | o_stdout ↦ s.stdout
  | o_file_new ↦ write
  | o_append ↦ write
  | o_pipe ↦ c.output_fid
]
