-- ===== src/Osh/Child.antt =====
-- a2/osh/executor.cpp: what the child process does between `fork` and `execvp`. The system calls are
-- parameters. A file descriptor stands for the file it refers to.
pub mod Redirects
use unix_sys_prog.Common.{
  ℕ, zero, suc, ◌+◌, Bool, true, false, ◌≡◌, ◌⊎◌, inl, inr, Option, some, none, List, [], ◌∷◌,
  if◌then◌else◌, refl, arith,
}
use unix_sys_prog.Common.Text.{Text}
use unix_sys_prog.Osh.Symbols.{
  InputMode, i_stdin, i_file, i_pipe, OutputMode, o_stdout, o_file_new, o_append, o_pipe, executing,
  status_success,
}
use unix_sys_prog.Osh.Command.{Command, get_executable, set_input_fid, set_output_fid}

-- How a file is opened: `O_RDONLY`, `O_WRONLY | O_CREAT | O_TRUNC`, `O_WRONLY | O_APPEND`.
pub data OpenMode : Type 0 where
  rdonly creat_trunc append : OpenMode

pub record ChildSystem : Type 0 where
  -- The errno, or the new descriptor.
  pub opened : Text → OpenMode → ℕ ⊎ ℕ
  -- `dup2` onto descriptor 0 and onto descriptor 1: none, or the errno.
  pub dup_stdin : ℕ → Option ℕ
  pub dup_stdout : ℕ → Option ℕ
  -- `execvp`: none when the program takes over, or the errno.
  pub execvp : Text → Option (List Text) → Option ℕ

-- What the descriptors 0 and 1 refer to.
pub record Streams : Type 0 where
  pub stdin : ℕ
  pub stdout : ℕ

-- What the steps of `fixupStdinOut` hand on: the status if the method returned early.
abbrev pub Fixing : Type 0
Fixing = Command × Streams × Option ℕ

-- A file opened and put in the place of a stream by `dup`.
unfoldable pub redirect_input : ChildSystem → Command → Streams → Fixing
redirect_input os c s = elim (os.opened c.input_filename rdonly) [
  | inl errno ↦ (c, s, some errno)
  | inr fid ↦ elim (os.dup_stdin fid) [
    | some errno ↦ (c, s, some errno)
    | none ↦ (set_input_fid fid c, record s { stdin = fid }, none)
  ]
]

unfoldable pub redirect_output : ChildSystem → OpenMode → Command → Streams → Fixing
redirect_output os mode c s = elim (os.opened c.output_filename mode) [
  | inl errno ↦ (c, s, some errno)
  | inr fid ↦ elim (os.dup_stdout fid) [
    | some errno ↦ (c, s, some errno)
    | none ↦ (set_output_fid fid c, record s { stdout = fid }, none)
  ]
]

unfoldable pub pipe_output : ChildSystem → Command → Streams → Fixing
pipe_output os c s = elim (os.dup_stdout c.output_fid) [
  | some errno ↦ (c, s, some errno)
  | none ↦ (c, record s { stdout = c.output_fid }, none)
]

unfoldable pub pipe_input : ChildSystem → Command → Streams → Fixing
pipe_input os c s = elim (os.dup_stdin c.input_fid) [
  | some errno ↦ (c, s, some errno)
  | none ↦ (c, record s { stdin = c.input_fid }, none)
]

-- The four parts of `fixupStdinOut`, by the modes.
unfoldable pub fix_input_file : ChildSystem → Command → Streams → Fixing
fix_input_file os c s = elim c.input_mode [ i_file ↦ redirect_input os c s | _ ↦ (c, s, none) ]

unfoldable pub fix_output : ChildSystem → Command → Streams → Fixing
fix_output os c s = elim c.output_mode [
  | o_file_new ↦ redirect_output os creat_trunc c s
  | o_append ↦ redirect_output os append c s
  | o_pipe ↦ pipe_output os c s
  | o_stdout ↦ (c, s, none)
]

unfoldable pub fix_input_pipe : ChildSystem → Command → Streams → Fixing
fix_input_pipe os c s = elim c.input_mode [ i_pipe ↦ pipe_input os c s | _ ↦ (c, s, none) ]

-- The next part, unless the method has returned.
unfoldable pub and_then : Fixing → (Command → Streams → Fixing) → Fixing
and_then (c, s, some errno) part = (c, s, some errno)
and_then (c, s, none) part = part c s

-- `fixupStdinOut`
unfoldable pub fixup_stdin_out : ChildSystem → Command → Streams → Command × Streams × ℕ
fixup_stdin_out os c s =
    let (c', s', errno) =
      and_then (and_then (fix_input_file os c s) (fix_output os)) (fix_input_pipe os) in
    (c', s', elim errno [ none ↦ status_success | some e ↦ e ])

-- How the child ends up.
pub data ChildEnd : Type 0 where
  -- The program with its arguments, and the streams it runs with.
  replaced : Text → Option (List Text) → Streams → ChildEnd
  exited_with : ℕ → ChildEnd
  -- `argv` is NULL.
  broke : ChildEnd

-- `childExecFunction`, in the process `pid`. What `fixupStdinOut` returns is not looked at.
unfoldable pub child_exec_function : ChildSystem → ℕ → Command → Streams → ChildEnd
child_exec_function os pid c s = elim (get_executable c) [
  | none ↦ broke
  | some bin ↦
      let (c', s', _) = fixup_stdin_out os (record c { parse_state = executing; pid = pid }) s in
      elim (os.execvp bin c'.argv) [
        | some errno ↦ exited_with errno
        | none ↦ replaced bin c'.argv s'
      ]
]
