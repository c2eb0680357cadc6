-- ===== src/Osh/Shell/Lines.antt =====
-- osh.cpp: a line through the parser and the executor.
use unix_sys_prog.Common.{
  inr, ℕ, ◌+◌, ◌≤◌, ◌≡◌, ◌≢◌, refl, ap, ◌∙◌, subst, Bool, false, Option, some, none, List, [], ◌∷◌,
  ◌++◌, arith, length,
}
use unix_sys_prog.Common.Text.{Text, text_eq}
use unix_sys_prog.Osh.Symbols.{exit_command, redir_pipe}
use unix_sys_prog.Osh.Command.{get_executable}
use unix_sys_prog.Osh.Input.{InputHandler}
use unix_sys_prog.Osh.Parser.{Parser, Chain, after_pipe, get_command_list}
use unix_sys_prog.Osh.Parser.Reading.{left, at_end, at_token}
use unix_sys_prog.Osh.Parser.Rounds.{pipe, connected}
use unix_sys_prog.Osh.Parser.Syntax.{
  same, Simple, Line, last, then_, words_of, from_tokens, to_tokens, print, directed, is_bar,
  meaning, count, IsSimple, IsLine,
}
use unix_sys_prog.Osh.Parser.RoundTrip.{parse_command_lem}
use unix_sys_prog.Osh.Parser.Chains.{
  get_command_list-print, directed-unpiped, linked, stopped, directed-output,
}
use unix_sys_prog.Osh.Executor.{
  Event, System, returned, crashed, is_last, is_command_exit, execute_command_list,
}
use unix_sys_prog.Osh.Executor.Order.{
  forks, argv_of, Sublist, IsChain, execute_command_list-IsOrderly,
}
use unix_sys_prog.Osh.Executor.Conditions.{execute_command_list-pipe}

-- The words of the simple commands of a line.
abbrev pub line_words : Line → List (Option (List Text))
line_words (last s) = some (words_of s) ∷ []
line_words (then_ s k l) = some (words_of s) ∷ line_words l

directed-argv : (b : Bool) (s : Simple) → (directed b s).argv ≡ some (words_of s)
directed-argv b s = ground arith

some-ne-none : {w : List Text} {a : Option (List Text)} → a ≡ some w → a ≢ none
some-ne-none e h = cc

meaning-words : (b : Bool) (l : Line) → argv_of (meaning b l) ≡ line_words l
meaning-words b (last s) = ground (arith, directed-argv b s)
meaning-words b (then_ s k l) = ground (arith, directed-argv b s, meaning-words (is_bar k) l)

meaning-last : (b : Bool) (l : Line) → is_last (meaning b l) ≡ false
meaning-last b (last s) = refl
meaning-last b (then_ s k l) = refl

-- What a line means can be executed.
pub meaning-IsChain : (b : Bool) (l : Line) → IsChain (meaning b l)
meaning-IsChain b (last s) = (
  some-ne-none {w = words_of s} (ground (arith, directed-argv b s)),
  λ piped. absurd (ground (arith, directed-unpiped b s)),
  tt,
)
meaning-IsChain b (then_ s k l) = (
  some-ne-none {w = words_of s} (ground (arith, directed-argv b s)),
  λ _. meaning-last (is_bar k) l,
  meaning-IsChain (is_bar k) l,
)

-- A line of up to 50 commands, whose words and file names are no symbols and whose redirections
-- leave the pipes alone, is parsed with success, given fuel for its tokens, and then executed
-- without a crash if processes can be forked: the commands that are run are commands of the line,
-- in the line's order, no more than 20.
pub line-runs :
    (fuel : ℕ) (p : Parser) (h : InputHandler) (l : Line) (os : System) (ends : ℕ × ℕ)
    (events : List Event)
    → IsLine (after_pipe p) l
    → left h ≡ print l
    → count l ≤ 50
    → length (print l) + 4 ≤ fuel
    → ((es : List Event) → os.fork es ≢ none)
    → (chain : Chain) × (status : ℕ) × (stop : Bool) × (calls : List Event) × (ran : List
        (Option (List Text)))
      × (get_command_list fuel p h ≡ some chain)
      × (chain.status ≡ 0)
      × (execute_command_list os ends events chain.commands ≡ returned status stop calls)
      × (forks calls ≡ forks events ++ ran)
      × Sublist ran (line_words l)
      × (length ran ≤ 20)
line-runs fuel p h l os ends events valid e few enough forking =
    let (chain, done, ok, means, _) = get_command_list-print fuel p h l valid e few enough in
    let (status, stop, calls, ran, runs, forked, order, few') =
      execute_command_list-IsOrderly os forking ends events (meaning (after_pipe p) l)
        (meaning-IsChain (after_pipe p) l) in
    (
      chain,
      status,
      stop,
      calls,
      ran,
      done,
      ok,
      ap (execute_command_list os ends events) means ∙ runs,
      forked,
      subst (Sublist ran) (meaning-words (after_pipe p) l) order,
      few',
    )

known :
    (b : Bool) (s : Simple)
    → text_eq s.name exit_command ≡ false
    → is_command_exit (connected pipe (directed b s)) ≡ some false
unfolding is_command_exit get_executable
known b s name = ground (arith, directed-argv b s, name)

-- A line that is one command and a pipe is parsed with success, given fuel for its tokens. If the
-- command is not `exit` and has no output redirection, and the pipe is made, the executor then
-- writes through the NULL pointer of the command that is not there.
pub line-pipe_last :
    (fuel : ℕ) (p : Parser) (h : InputHandler) (s : Simple) (os : System) (ends made : ℕ × ℕ)
    (events : List Event)
    → IsSimple (after_pipe p) s
    → s.to ≡ same
    → text_eq s.name exit_command ≡ false
    → left h ≡ words_of s ++ (from_tokens s.from ++ (to_tokens s.to ++ (redir_pipe ∷ [])))
    → length s.args + 4 ≤ fuel
    → os.pipe events ≡ inr made
    → (chain : Chain) × (get_command_list fuel p h ≡ some chain)
      × (chain.status ≡ 0)
      × (execute_command_list os ends events chain.commands ≡ crashed)
unfolding get_command_list
line-pipe_last fuel p h s os ends made events simple to name e enough makes =
    let q : Parser = record p { end_of_input = false } in
    let c = connected pipe (directed (after_pipe p) s) in
    let (p', h', done, _, after) =
      parse_command_lem fuel q h s (some (pipe, [])) enough simple
        (λ bar. directed-output (after_pipe p) s to) e in
    (
      _,
      linked fuel 49 q p' h h' c [] (at_token h s.name _ e).0 done refl
          ∙ stopped fuel 49 _ h' (c ∷ []) (at_end h' after).0,
      refl,
      execute_command_list-pipe os ends made events c (known (after_pipe p) s name) refl makes,
    )
