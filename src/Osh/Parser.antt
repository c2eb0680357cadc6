-- ===== src/Osh/Parser.antt =====
-- a2/osh/parser.cpp: class Parser. `prevCommand` is kept as the command itself: of its fields only
-- the output mode is read, which does not change once the command is linked. `tokenState` and
-- `prevSymbol` are never read and are left out. A status is a number; `fuel` bounds the two loops
-- that run over the tokens, and none is returned when it runs out.
pub mod Reading
pub mod Rounds
pub mod Syntax
pub mod RoundTrip
pub mod Chains
pub mod Faults
use unix_sys_prog.Common.{
  ℕ, zero, suc, ◌+◌, Bool, true, false, ◌&&◌, ◌||◌, Option, some, none, List, [], ◌∷◌, ◌++◌, length,
  ◌==◌, if◌then◌else◌,
}
use unix_sys_prog.Common.Text.{Text, codes, text_eq}
use unix_sys_prog.Osh.Symbols.{
  InputMode, i_stdin, i_file, i_pipe, OutputMode, o_stdout, o_file_new, o_append, o_pipe,
  ParseState, blank, invalid, need_token, parsed, status_success, status_fail, redir_stdout,
  redir_stdin, append_stdout, redir_pipe, exec_any, exec_onsuccess, exec_onfailure,
}
use unix_sys_prog.Osh.Command.{Command, fresh, set_run_next_command}
use unix_sys_prog.Osh.Input.{InputHandler, is_end_of_line, get_next_token, peek_next_token}

pub record Parser : Type 0 where
  pub prev_command : Option Command
  pub end_of_input : Bool

abbrev pub new_parser : Parser
new_parser = record { prev_command = none; end_of_input = false }

abbrev pub is_pipe : OutputMode → Bool
is_pipe o_pipe = true
is_pipe m = false

abbrev pub is_stdout : OutputMode → Bool
is_stdout o_stdout = true
is_stdout m = false

abbrev pub is_stdin : InputMode → Bool
is_stdin i_stdin = true
is_stdin m = false

-- `NULL != prevCommand`, and whether its output mode is `O_Pipe`.
abbrev pub after_pipe : Parser → Bool
after_pipe p = elim p.prev_command [ none ↦ false | some c ↦ is_pipe c.output_mode ]

unfoldable pub init_command : Parser → Command → Command
init_command p c = elim p.prev_command [
  | none ↦ record c { input_mode = i_stdin; parse_state = need_token }
  | some prev ↦
      if is_pipe prev.output_mode
      then record c { input_mode = i_pipe; parse_state = need_token }
      else record c { parse_state = need_token }
]

unfoldable pub is_end_of_command : Text → Bool
is_end_of_command token =
    text_eq token redir_pipe
    || (text_eq token exec_any || (text_eq token exec_onsuccess || text_eq token exec_onfailure))

unfoldable pub is_token_symbol : Text → Bool
is_token_symbol token =
    text_eq token redir_pipe
    || (text_eq token redir_stdin
        || (text_eq token redir_stdout
            || (text_eq token append_stdout
                || (text_eq token exec_any
                    || (text_eq token exec_onsuccess || text_eq token exec_onfailure)))))

-- The loop of `initArgv`: the handler, the tokens, and whether the input ended.
unfoldable pub collect : ℕ → InputHandler → List Text → Option (InputHandler × List Text × Bool)
collect zero h tokens = none
collect (suc fuel) h tokens =
    let (token, status) = peek_next_token h in
    let (h', token', _) = get_next_token h in
    let rest = collect fuel h' (tokens ++ token' ∷ []) in
    if status == status_success
    then (if is_token_symbol token then some (h, tokens, false) else rest)
    else some (h, tokens, true)

-- The command once the tokens of its `argv` are collected.
unfoldable pub with_argv : Parser → Command → List Text → Command
with_argv p c (w ∷ words) = record c { argv = some (w ∷ words) }
with_argv p c [] = elim p.prev_command [
  | none ↦ record c { parse_state = blank; argv = some [] }
  | some prev ↦
      if is_pipe prev.output_mode
      then record c { parse_state = invalid; argv = none }
      else record c { argv = none }
]

unfoldable pub init_argv :
    ℕ → Parser → InputHandler → Command → Option (Parser × InputHandler × Command)
init_argv fuel p h c = elim (collect fuel h []) [
  | none ↦ none
  | some (h', tokens, ended) ↦ some (
    if ended then record p { end_of_input = true } else p,
    h',
    with_argv p (if ended then record c { parse_state = parsed } else c) tokens,
  )
]

-- `initInputOutput`: the handler, the command and the status.
unfoldable pub init_input_output : InputHandler → Command → InputHandler × Command × ℕ
init_input_output h c =
    let (h', token, status) = get_next_token h in
    let (h'', name, _) = get_next_token h' in
    if text_eq token redir_stdin
    then (if is_stdin c.input_mode
        then (
          h'',
          record (set_run_next_command name c) { input_mode = i_file; input_filename = name },
          status,
        )
        else (h', record c { parse_state = invalid }, status_fail))
    else if text_eq token redir_stdout
    then (if is_stdout c.output_mode
        then (
          h'',
          record (set_run_next_command name c) { output_mode = o_file_new; output_filename = name },
          status,
        )
        else (h', record c { parse_state = invalid }, status_fail))
    else if text_eq token append_stdout
    then (if is_stdout c.output_mode
        then (
          h'',
          record (set_run_next_command name c) { output_mode = o_append; output_filename = name },
          status,
        )
        else (h', record c { parse_state = invalid }, status_fail))
    else if text_eq token redir_pipe
    then (if is_stdout c.output_mode
        then (
          h',
          record (set_run_next_command token c) { output_mode = o_pipe; parse_state = parsed },
          status,
        )
        else (h', record c { parse_state = invalid }, status_fail))
    else (h', c, status)

unfoldable pub init_conditional_exec_symbol : InputHandler → Command → InputHandler × Command
init_conditional_exec_symbol h c =
    let (h', token, _) = get_next_token h in
    (h', record (set_run_next_command token c) { parse_state = parsed })

abbrev pub is_redirect : Text → Bool
is_redirect token =
    text_eq token redir_stdout
    || (text_eq token redir_stdin || (text_eq token redir_pipe || text_eq token append_stdout))

abbrev pub is_exec : Text → Bool
is_exec token =
    text_eq token exec_any || (text_eq token exec_onfailure || text_eq token exec_onsuccess)

-- The states that end the inner loop of `getCommandList`.
abbrev pub is_final : ParseState → Bool
is_final parsed = true
is_final invalid = true
is_final blank = true
is_final s = false

abbrev pub is_invalid : ParseState → Bool
is_invalid invalid = true
is_invalid s = false

abbrev pub is_blank : ParseState → Bool
is_blank blank = true
is_blank s = false

abbrev pub is_parsed : ParseState → Bool
is_parsed parsed = true
is_parsed s = false

abbrev pub to_parsed : Command → Command
to_parsed c = if is_invalid c.parse_state then c else record c { parse_state = parsed }

-- What a round of the inner loop does with the token it has peeked at.
unfoldable pub take_symbol : Text → InputHandler → Command → InputHandler × Command × ℕ
take_symbol token h c =
    let (_, status) = peek_next_token h in
    if (status == status_success) && is_redirect token
    then init_input_output h c
    else if (status == status_success) && is_exec token
    then (let (h', c') = init_conditional_exec_symbol h c in (h', c', status))
    else (h, c, status)

-- The inner loop of `getCommandList`.
unfoldable pub symbols : ℕ → InputHandler → Command → ℕ → Option (InputHandler × Command × ℕ)
symbols zero h c status = none
symbols (suc fuel) h c status =
    let (token, _) = peek_next_token h in
    let (h', c', status') = take_symbol token h c in
    let (_, ended) = peek_next_token h' in
    let rest = symbols fuel h' c' status' in
    if is_final c.parse_state
    then some (h, c, status)
    else if is_end_of_command token || (ended == status_fail)
    then some (h', to_parsed c', status')
    else rest

-- One command: `initCommand`, `initArgv`, and, unless the command is blank, the inner loop.
unfoldable pub parse_command :
    ℕ → Parser → InputHandler → Option (Parser × InputHandler × Command × ℕ)
parse_command fuel p h = elim (init_argv fuel p h (init_command p fresh)) [
  | none ↦ none
  | some (p', h', c) ↦
      if is_blank c.parse_state
      then some (p', h', c, status_success)
      else elim (symbols fuel h' c status_success) [
        | none ↦ none
        | some (h'', c', status) ↦ some (p', h'', c', status)
      ]
]

-- How a line ends: the status, and the chain, which is empty for NULL.
pub record Chain : Type 0 where
  pub parser : Parser
  pub handler : InputHandler
  pub status : ℕ
  pub commands : List Command

-- The outer loop of `getCommandList` with `left` rounds to go; `commands` are linked already. At the
-- end of the line the last command is made `Parsed`, which a linked one is. A blank command is
-- dropped; it cannot come after a pipe, as it is blank only without a previous command.
unfoldable pub command_rounds : ℕ → ℕ → Parser → InputHandler → ℕ → List Command → Option Chain
command_rounds fuel zero p h status commands =
    some (record { parser = p; handler = h; status = status; commands = commands })
command_rounds fuel (suc left) p h status commands =
    if is_end_of_line h
    then some (record { parser = p; handler = h; status = status; commands = commands })
    else elim (parse_command fuel p h) [
      | none ↦ none
      | some (p', h', c, status') ↦
          let linked =
            command_rounds fuel left (record p' { prev_command = some c }) h' status'
              (commands ++ c ∷ []) in
          let passed = command_rounds fuel left p' h' status' commands in
          if (status' == status_success) && is_parsed c.parse_state
          then linked
          else if is_invalid c.parse_state
          then some (record { parser = p'; handler = h'; status = status_fail; commands = [] })
          else passed
    ]

unfoldable pub get_command_list : ℕ → Parser → InputHandler → Option Chain
get_command_list fuel p h =
    command_rounds fuel 50 (record p { end_of_input = false }) h status_success []
