-- ===== src/Osh/Parser/Rounds.antt =====
-- parser.cpp: what a redirection and a connector do in the inner loop of `getCommandList`.
use unix_sys_prog.Common.{
  ℕ, suc, ◌≡◌, refl, ◌∙◌, true, false, some, List, [], ◌∷◌, arith, ◌||◌, ◌==◌, if◌then◌else◌,
}
use unix_sys_prog.Common.Text.{Text, text_eq}
use unix_sys_prog.Osh.Symbols.{
  i_stdin, i_file, o_stdout, o_file_new, o_append, o_pipe, RunNextCommandSymbol, r_redir_pipe,
  r_exec_any, r_exec_onsuccess, r_exec_onfailure, need_token, parsed, redir_stdout, redir_stdin,
  append_stdout, redir_pipe, exec_any, exec_onsuccess, exec_onfailure,
}
use unix_sys_prog.Osh.Command.{Command, symbol_or, set_run_next_command}
use unix_sys_prog.Osh.Input.{InputHandler, get_next_token, peek_next_token}
use unix_sys_prog.Osh.Parser.{
  is_token_symbol, is_end_of_command, init_input_output, init_conditional_exec_symbol, take_symbol,
  symbols, to_parsed,
}
use unix_sys_prog.Osh.Parser.Reading.{left, next, at_end, at_token, is_empty}

-- A word that is no symbol leaves the connector alone.
pub symbol_or-plain :
    (f : Text) (old : RunNextCommandSymbol) → is_token_symbol f ≡ false → symbol_or f old ≡ old
unfolding symbol_or is_token_symbol
symbol_or-plain f old plain = ground arith

-- The connectors, with the symbols that stand for them.
pub data Connector : Type 0 where
  pipe any onsuccess onfailure : Connector

abbrev pub symbol_of : Connector → Text
symbol_of pipe = redir_pipe
symbol_of any = exec_any
symbol_of onsuccess = exec_onsuccess
symbol_of onfailure = exec_onfailure

-- What a connector makes of a command.
abbrev pub connected : Connector → Command → Command
connected pipe c = record c {
  run_next_command = r_redir_pipe;
  output_mode = o_pipe;
  parse_state = parsed;
}
connected any c = record c { run_next_command = r_exec_any; parse_state = parsed }
connected onsuccess c = record c { run_next_command = r_exec_onsuccess; parse_state = parsed }
connected onfailure c = record c { run_next_command = r_exec_onfailure; parse_state = parsed }

-- What the token in front makes of the handler and the command.
take_connector :
    (h : InputHandler) (c : Command) (k : Connector)
    → (k ≡ pipe → c.output_mode ≡ o_stdout)
    → peek_next_token h ≡ (symbol_of k, 0)
    → get_next_token h ≡ (next h, symbol_of k, 0)
    → take_symbol (symbol_of k) h c ≡ (next h, connected k c, 0)
unfolding take_symbol init_input_output init_conditional_exec_symbol set_run_next_command symbol_or
    text_eq
take_connector h c pipe free peek get = let out = free refl in rw (peek, get, out) refl
take_connector h c any free peek get = rw (peek, get) refl
take_connector h c onsuccess free peek get = rw (peek, get) refl
take_connector h c onfailure free peek get = rw (peek, get) refl

is_end_of_command-symbol_of : (k : Connector) → is_end_of_command (symbol_of k) ≡ true
unfolding is_end_of_command text_eq
is_end_of_command-symbol_of pipe = refl
is_end_of_command-symbol_of any = refl
is_end_of_command-symbol_of onsuccess = refl
is_end_of_command-symbol_of onfailure = refl

-- A round of the loop, by what is in front.
pub symbols_round :
    (fuel : ℕ) (h h' : InputHandler) (c c' : Command) (token : Text) (status : ℕ)
    → c.parse_state ≡ need_token
    → peek_next_token h ≡ (token, 0)
    → take_symbol token h c ≡ (h', c', status)
    → symbols (suc fuel) h c 0 ≡ (
        if is_end_of_command token || ((peek_next_token h').1 == 1)
        then some (h', to_parsed c', status)
        else symbols fuel h' c' status)
unfolding symbols
symbols_round fuel h h' c c' token status state peek taken = rw (peek, taken, state) refl

connected-parsed : (k : Connector) (c : Command) → to_parsed (connected k c) ≡ connected k c
connected-parsed pipe c = refl
connected-parsed any c = refl
connected-parsed onsuccess c = refl
connected-parsed onfailure c = refl

-- A connector ends the command. A pipe wants the standard output.
pub symbols-connector :
    (fuel : ℕ) (h : InputHandler) (c : Command) (k : Connector) (ts : List Text)
    → c.parse_state ≡ need_token
    → (k ≡ pipe → c.output_mode ≡ o_stdout)
    → left h ≡ symbol_of k ∷ ts
    → (symbols (suc fuel) h c 0 ≡ some (next h, connected k c, 0)) × (left (next h) ≡ ts)
symbols-connector fuel h c k ts state free e =
    let (_, peek, get, after) = at_token h (symbol_of k) ts e in
    (
      symbols_round fuel h (next h) c (connected k c) (symbol_of k) 0 state peek
            (take_connector h c k free peek get)
          ∙ rw (is_end_of_command-symbol_of k, connected-parsed k c) refl,
      after,
    )

-- A redirection: its symbol, and what it makes of a command.
pub data Redirection : Type 0 where
  input output appending : Redirection

abbrev pub sign : Redirection → Text
sign input = redir_stdin
sign output = redir_stdout
sign appending = append_stdout

abbrev pub redirected : Redirection → Text → Command → Command
redirected input f c = record c { input_mode = i_file; input_filename = f }
redirected output f c = record c { output_mode = o_file_new; output_filename = f }
redirected appending f c = record c { output_mode = o_append; output_filename = f }

-- The stream that a redirection replaces is as it was.
abbrev pub Untouched : Redirection → Command → Type 0
Untouched input c = c.input_mode ≡ i_stdin
Untouched output c = c.output_mode ≡ o_stdout
Untouched appending c = c.output_mode ≡ o_stdout

take_redirection :
    (h : InputHandler) (c : Command) (r : Redirection) (f : Text)
    → Untouched r c
    → is_token_symbol f ≡ false
    → peek_next_token h ≡ (sign r, 0)
    → get_next_token h ≡ (next h, sign r, 0)
    → get_next_token (next h) ≡ (next (next h), f, 0)
    → take_symbol (sign r) h c ≡ (next (next h), redirected r f c, 0)
unfolding take_symbol init_input_output text_eq set_run_next_command
take_redirection h c input f free plain peek get get' =
    rw (peek, get, get', symbol_or-plain f c.run_next_command plain, free) refl
take_redirection h c output f free plain peek get get' =
    rw (peek, get, get', symbol_or-plain f c.run_next_command plain, free) refl
take_redirection h c appending f free plain peek get get' =
    rw (peek, get, get', symbol_or-plain f c.run_next_command plain, free) refl

pub is_end_of_command-sign : (r : Redirection) → is_end_of_command (sign r) ≡ false
unfolding is_end_of_command text_eq
is_end_of_command-sign input = refl
is_end_of_command-sign output = refl
is_end_of_command-sign appending = refl

-- A redirection is two tokens. If they are the last of the line, the command ends.
pub symbols-redirection :
    (fuel : ℕ) (h : InputHandler) (c : Command) (r : Redirection) (f : Text) (ts : List Text)
    → c.parse_state ≡ need_token
    → Untouched r c
    → is_token_symbol f ≡ false
    → left h ≡ sign r ∷ f ∷ ts
    → (symbols (suc fuel) h c 0 ≡ (
        if is_empty ts
        then some (next (next h), to_parsed (redirected r f c), 0)
        else symbols fuel (next (next h)) (redirected r f c) 0))
      × (left (next (next h)) ≡ ts)
symbols-redirection fuel h c r f ts state free plain e =
    let (_, peek, get, after) = at_token h (sign r) (f ∷ ts) e in
    let (_, _, get', after') = at_token (next h) f ts after in
    let round =
      symbols_round fuel h (next (next h)) c (redirected r f c) (sign r) 0 state peek
        (take_redirection h c r f free plain peek get get') in
    ((rw (is_end_of_command-sign r) at round) ∙ ends ts after', after')
  where
    ends :
        (ts : List Text)
        → left (next (next h)) ≡ ts
        → (if false || ((peek_next_token (next (next h))).1 == 1)
            then some (next (next h), to_parsed (redirected r f c), 0)
            else symbols fuel (next (next h)) (redirected r f c) 0)
          ≡ (if is_empty ts
              then some (next (next h), to_parsed (redirected r f c), 0)
              else symbols fuel (next (next h)) (redirected r f c) 0)
    ends [] e' = rw (at_end (next (next h)) e').1 refl
    ends (t ∷ ts) e' = rw (at_token (next (next h)) t ts e').1 refl
