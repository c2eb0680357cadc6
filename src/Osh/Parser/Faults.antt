-- ===== src/Osh/Parser/Faults.antt =====
-- parser.cpp: lines on which `getCommandList` does not do what it means to.
use unix_sys_prog.Common.{
  ℕ, zero, suc, ◌+◌, ◌≤◌, ◌≡◌, refl, ap, ◌∙◌, Bool, true, false, Option, some, none, List, [], ◌∷◌,
  ◌++◌, arith, length,
}
use unix_sys_prog.Common.Text.{Text, text_eq}
use unix_sys_prog.Osh.Symbols.{i_pipe, need_token, invalid, redir_stdin, redir_pipe}
use unix_sys_prog.Osh.Command.{Command, fresh}
use unix_sys_prog.Osh.Input.{InputHandler, is_end_of_line, get_next_token, peek_next_token}
use unix_sys_prog.Osh.Parser.{
  Parser, Chain, after_pipe, is_pipe, is_token_symbol, is_end_of_command, init_command, init_argv,
  take_symbol, init_input_output, symbols, parse_command, command_rounds, get_command_list,
}
use unix_sys_prog.Osh.Parser.Reading.{left, next, at_token, Plain}
use unix_sys_prog.Osh.Parser.Rounds.{
  pipe, connected, Redirection, input, output, appending, sign, symbols_round,
  is_end_of_command-sign, redirected, Untouched, symbols-redirection,
}
use unix_sys_prog.Osh.Parser.Syntax.{
  same, Simple, from_tokens, to_tokens, words_of, begun, directed, IsSimple,
}
use unix_sys_prog.Osh.Parser.RoundTrip.{init_argv_lem, parse_command_lem, sign-symbol}
use unix_sys_prog.Osh.Parser.Chains.{linked, directed-output}

-- A word in front stops the inner loop from getting on.
stuck :
    (fuel : ℕ) (h : InputHandler) (c : Command) (x : Text) (ts : List Text)
    → c.parse_state ≡ need_token
    → is_token_symbol x ≡ false
    → left h ≡ x ∷ ts
    → symbols fuel h c 0 ≡ none
unfolding symbols take_symbol is_end_of_command is_token_symbol
stuck zero h c x ts state plain e = refl
stuck (suc fuel) h c x ts state plain e =
    ground (arith, at_token h x ts e, stuck fuel h c x ts state plain e)

parse_command-none :
    (fuel : ℕ) (p p' : Parser) (h h' : InputHandler) (c : Command)
    → init_argv fuel p h (init_command p fresh) ≡ some (p', h', c)
    → c.parse_state ≡ need_token
    → symbols fuel h' c 0 ≡ none
    → parse_command fuel p h ≡ none
unfolding parse_command
parse_command-none fuel p p' h h' c first state looped = ground (arith, first, state, looped)

-- A command that is never parsed holds up the line.
never :
    (fuel left : ℕ) (p : Parser) (h : InputHandler) (commands : List Command)
    → is_end_of_line h ≡ false
    → parse_command fuel p h ≡ none
    → command_rounds fuel (suc left) p h 0 commands ≡ none
unfolding command_rounds
never fuel left p h commands here held = ground (arith, here, held)

-- A line with a word behind the file name of a redirection, as in `ls > files -l`, is never
-- parsed, if the command before the line wrote to no pipe: no fuel of 4 and one for each argument
-- or more is enough, so the shell hangs.
pub get_command_list-word_after_file :
    (fuel : ℕ) (p : Parser) (h : InputHandler) (name : Text) (args : List Text) (r : Redirection)
    (f x : Text) (ts : List Text)
    → after_pipe p ≡ false
    → Plain (name ∷ args)
    → is_token_symbol f ≡ false
    → is_token_symbol x ≡ false
    → left h ≡ (name ∷ args) ++ sign r ∷ f ∷ x ∷ ts
    → length args + 4 ≤ fuel
    → get_command_list fuel p h ≡ none
unfolding get_command_list
get_command_list-word_after_file zero p h name args r f x ts unpiped words plain plain' e enough =
    absurd (omega arith)
get_command_list-word_after_file (suc fuel) p h name args r f x ts unpiped words plain plain' e
      enough =
    let q : Parser = record p { end_of_input = false } in
    let (p', h', first, _, e') =
      init_argv_lem (suc fuel) q h name args (sign r ∷ f ∷ x ∷ ts) (omega arith) words
        (sign-symbol r) e in
    let (round, after) = symbols-redirection fuel h' _ r f (x ∷ ts) refl (untouched r) plain e' in
    never (suc fuel) 49 q h [] (at_token h name _ e).0 (
      parse_command-none (suc fuel) q p' h h' _ first refl
        (round ∙ stuck fuel (next (next h')) _ x ts (state r) plain' after))
  where
    untouched : (r : Redirection) → Untouched r (begun (after_pipe p) (name ∷ args))
    untouched input = ap (λ (b : Bool). (begun b (name ∷ args)).input_mode) unpiped
    untouched output = refl
    untouched appending = refl

    state :
        (r : Redirection)
        → (redirected r f (begun (after_pipe p) (name ∷ args))).parse_state ≡ need_token
    state input = refl
    state output = refl
    state appending = refl

-- A command that reads from a pipe and has a `<`.
take_refused :
    (h : InputHandler) (c : Command)
    → c.input_mode ≡ i_pipe
    → peek_next_token h ≡ (redir_stdin, 0)
    → get_next_token h ≡ (next h, redir_stdin, 0)
    → take_symbol redir_stdin h c ≡ (next h, record c { parse_state = invalid }, 1)
unfolding take_symbol init_input_output text_eq
take_refused h c piped peek get = rw (peek, get, piped) refl

symbols-invalid :
    (fuel : ℕ) (h : InputHandler) (c : Command) (status : ℕ)
    → symbols (suc fuel) h (record c { parse_state = invalid }) status
      ≡ some (h, record c { parse_state = invalid }, status)
unfolding symbols
symbols-invalid fuel h c status = refl

symbols-refused :
    (fuel : ℕ) (h : InputHandler) (c : Command) (f : Text) (ts : List Text)
    → c.parse_state ≡ need_token
    → c.input_mode ≡ i_pipe
    → left h ≡ redir_stdin ∷ f ∷ ts
    → symbols (suc (suc fuel)) h c 0 ≡ some (next h, record c { parse_state = invalid }, 1)
symbols-refused fuel h c f ts state piped e =
    let (_, peek, get, after) = at_token h redir_stdin (f ∷ ts) e in
    let (_, peek', _, _) = at_token (next h) f ts after in
    let round =
      symbols_round (suc fuel) h (next h) c (record c { parse_state = invalid }) redir_stdin 1 state
        peek (take_refused h c piped peek get) in
    (rw (is_end_of_command-sign input, peek') at round) ∙ symbols-invalid fuel (next h) c 1

parse_command-some :
    (fuel : ℕ) (p p' : Parser) (h h' h'' : InputHandler) (c c' : Command) (status : ℕ)
    → init_argv fuel p h (init_command p fresh) ≡ some (p', h', c)
    → c.parse_state ≡ need_token
    → symbols fuel h' c 0 ≡ some (h'', c', status)
    → parse_command fuel p h ≡ some (p', h'', c', status)
unfolding parse_command
parse_command-some fuel p p' h h' h'' c c' status first state looped =
    ground (arith, first, state, looped)

-- An invalid command ends the line.
refused :
    (fuel left : ℕ) (p p' : Parser) (h h' : InputHandler) (c : Command) (commands : List Command)
    → is_end_of_line h ≡ false
    → parse_command fuel p h ≡ some (p', h', record c { parse_state = invalid }, 1)
    → command_rounds fuel (suc left) p h 0 commands
      ≡ some (record { parser = p'; handler = h'; status = 1; commands = [] })
unfolding command_rounds
refused fuel left p p' h h' c commands here done = ground (arith, here, done)

-- A line such as `a | b < file` is refused, with no chain, but the parser keeps the command in front
-- of the pipe as the previous one: the first command of the next line will be taken to read from a
-- pipe, which nothing writes to.
pub get_command_list-refused :
    (fuel : ℕ) (p : Parser) (h : InputHandler) (s : Simple) (name : Text) (args : List Text)
    (f : Text) (ts : List Text)
    → IsSimple (after_pipe p) s
    → s.to ≡ same
    → Plain (name ∷ args)
    → left h
      ≡ words_of s
        ++ (from_tokens s.from
            ++ (to_tokens s.to ++ (redir_pipe ∷ (name ∷ args) ++ redir_stdin ∷ f ∷ ts)))
    → length s.args + length args + 4 ≤ fuel
    → (chain : Chain) × (get_command_list fuel p h ≡ some chain)
      × (chain.status ≡ 1)
      × (chain.commands ≡ [])
      × (after_pipe chain.parser ≡ true)
unfolding get_command_list
get_command_list-refused zero p h s name args f ts simple to words e enough = absurd (omega arith)
get_command_list-refused (suc zero) p h s name args f ts simple to words e enough =
    absurd (omega arith)
get_command_list-refused (suc (suc fuel)) p h s name args f ts simple to words e enough =
    let q : Parser = record p { end_of_input = false } in
    let behind = (name ∷ args) ++ redir_stdin ∷ f ∷ ts in
    let c = connected pipe (directed (after_pipe p) s) in
    let (p1, h1, done, _, e1) =
      parse_command_lem (suc (suc fuel)) q h s (some (pipe, behind)) (omega arith) simple
        (λ bar. directed-output (after_pipe p) s to) e in
    let p2 : Parser = record p1 { prev_command = some c } in
    let (p3, h3, first, kept, e3) =
      init_argv_lem (suc (suc fuel)) p2 h1 name args (redir_stdin ∷ f ∷ ts) (omega arith) words
        (sign-symbol input) e1 in
    let second =
      parse_command-some (suc (suc fuel)) p2 p3 h1 h3 (next h3) _ _ 1 first refl
        (symbols-refused fuel h3 (begun true (name ∷ args)) f ts refl refl e3) in
    (
      _,
      linked (suc (suc fuel)) 49 q p1 h h1 c [] (at_token h s.name _ e).0 done refl
          ∙ refused (suc (suc fuel)) 48 p2 p3 h1 (next h3) (begun true (name ∷ args)) (c ∷ [])
              (at_token h1 name _ e1).0 second,
      refl,
      refl,
      ap (λ (o : Option Command). elim o [ none ↦ false | some prev ↦ is_pipe prev.output_mode ])
          kept,
    )
