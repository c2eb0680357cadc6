-- ===== src/Osh/Parser/Chains.antt =====
-- parser.cpp: `getCommandList` makes of the tokens of a line the chain that the line means.
use mathlib.Core.List.{append_assoc}
use unix_sys_prog.Common.{
  ℕ, zero, suc, ◌+◌, ◌≤◌, ◌≡◌, refl, ap, ◌∙◌, sym, subst, Bool, true, false, Option, some, none,
  List, [], ◌∷◌, ◌++◌, arith, length, length-append,
}
use unix_sys_prog.Common.Text.{Text}
use unix_sys_prog.Osh.Symbols.{o_stdout}
use unix_sys_prog.Osh.Command.{Command}
use unix_sys_prog.Osh.Input.{InputHandler, is_end_of_line}
use unix_sys_prog.Osh.Parser.{
  Parser, Chain, after_pipe, is_pipe, is_parsed, to_parsed, parse_command, command_rounds,
  get_command_list,
}
use unix_sys_prog.Osh.Parser.Reading.{left, at_end, at_token}
use unix_sys_prog.Osh.Parser.Rounds.{
  Connector, pipe, any, onsuccess, onfailure, symbol_of, connected,
}
use unix_sys_prog.Osh.Parser.Syntax.{
  same, Simple, Line, last, then_, from_tokens, to_tokens, words_of, print, directed, is_bar,
  meaning, count, IsLine,
}
use unix_sys_prog.Osh.Parser.RoundTrip.{parse_command_lem}

-- A round that links a command.
pub linked :
    (fuel left : ℕ) (p p' : Parser) (h h' : InputHandler) (c : Command) (commands : List Command)
    → is_end_of_line h ≡ false
    → parse_command fuel p h ≡ some (p', h', c, 0)
    → is_parsed c.parse_state ≡ true
    → command_rounds fuel (suc left) p h 0 commands
      ≡ command_rounds fuel left (record p' { prev_command = some c }) h' 0 (commands ++ c ∷ [])
unfolding command_rounds
linked fuel left p p' h h' c commands open_ done state = ground (arith, open_, done, state)

-- With no token left, the rounds end.
pub stopped :
    (fuel left : ℕ) (p : Parser) (h : InputHandler) (commands : List Command)
    → is_end_of_line h ≡ true
    → command_rounds fuel left p h 0 commands
      ≡ some (record { parser = p; handler = h; status = 0; commands = commands })
unfolding command_rounds
stopped fuel zero p h commands over = refl
stopped fuel (suc left) p h commands over = ground (arith, over)

pub connected-is_parsed :
    (k : Connector) (c : Command) → is_parsed (connected k c).parse_state ≡ true
connected-is_parsed pipe c = refl
connected-is_parsed any c = refl
connected-is_parsed onsuccess c = refl
connected-is_parsed onfailure c = refl

pub directed-output : (b : Bool) (s : Simple) → s.to ≡ same → (directed b s).output_mode ≡ o_stdout
directed-output b s e = ground (arith, e)

-- The next command reads from a pipe if the connector is one.
pub connected-is_pipe :
    (k : Connector) (b : Bool) (s : Simple)
    → is_pipe (connected k (directed b s)).output_mode ≡ is_bar k
connected-is_pipe pipe b s = refl
connected-is_pipe any b s = ground arith
connected-is_pipe onsuccess b s = ground arith
connected-is_pipe onfailure b s = ground arith

-- A command without a connector does not write to a pipe.
pub directed-unpiped : (b : Bool) (s : Simple) → is_pipe (directed b s).output_mode ≡ false
directed-unpiped b s = ground arith

parsed-unpiped : (b : Bool) (s : Simple) → is_pipe (to_parsed (directed b s)).output_mode ≡ false
parsed-unpiped b s = ground (arith, directed-unpiped b s)

-- What a chain is to be.
pub record Means (result : Option Chain) (expected : List Command) : Type 0 where
  pub chain : Chain
  pub done : result ≡ some chain
  pub status : chain.status ≡ 0
  pub commands : chain.commands ≡ expected
  pub over : left chain.handler ≡ []
  pub unpiped : after_pipe chain.parser ≡ false

words_few :
    (s : Simple) (ts : List Text) (fuel : ℕ)
    → length (words_of s ++ ts) + 4 ≤ fuel
    → length s.args + 4 ≤ fuel
words_few s ts fuel h = omega (arith, length-append (words_of s) ts)

rest_few :
    (s : Simple) (k : Connector) (ts : List Text) (fuel : ℕ)
    → length (words_of s ++ (from_tokens s.from ++ (to_tokens s.to ++ (symbol_of k ∷ ts)))) + 4
      ≤ fuel
    → length ts + 4 ≤ fuel
rest_few s k ts fuel h = omega (
  arith,
  length-append (words_of s) (from_tokens s.from ++ (to_tokens s.to ++ (symbol_of k ∷ ts))),
  length-append (from_tokens s.from) (to_tokens s.to ++ (symbol_of k ∷ ts)),
  length-append (to_tokens s.to) (symbol_of k ∷ ts),
)

rounds_lem :
    (l : Line) (fuel rounds : ℕ) (p : Parser) (h : InputHandler) (commands : List Command)
    → IsLine (after_pipe p) l
    → left h ≡ print l
    → count l ≤ rounds
    → length (print l) + 4 ≤ fuel
    → Means (command_rounds fuel rounds p h 0 commands) (commands ++ meaning (after_pipe p) l)
rounds_lem (last s) fuel zero p h commands valid e few enough = absurd (omega arith)
rounds_lem (last s) fuel (suc rounds) p h commands valid e few enough =
    let (p', h', done, _, after) =
      parse_command_lem fuel p h s none (words_few s _ fuel enough) valid tt e in
    let here = (at_token h s.name _ e).0 in
    let over = (at_end h' after).0 in
    record {
      chain = _;
      done =
          linked fuel rounds p p' h h' _ commands here done (ground arith)
          ∙ stopped fuel rounds _ h' _ over;
      status = refl;
      commands = refl;
      over = after;
      unpiped = parsed-unpiped (after_pipe p) s;
    }
rounds_lem (then_ s k l) fuel zero p h commands valid e few enough = absurd (omega arith)
rounds_lem (then_ s k l) fuel (suc rounds) p h commands (simple, free, valid) e few enough =
    let b = after_pipe p in
    let c = connected k (directed b s) in
    let (p', h', done, _, after) =
      parse_command_lem fuel p h s (some (k, print l)) (words_few s _ fuel enough) simple
        (λ bar. directed-output b s (free bar)) e in
    let here = (at_token h s.name _ e).0 in
    let piped = connected-is_pipe k b s in
    let rest =
      rounds_lem l fuel rounds (record p' { prev_command = some c }) h' (commands ++ c ∷ [])
        (subst (λ q. IsLine q l) (sym piped) valid) after (omega arith)
        (rest_few s k (print l) fuel enough) in
    record {
      chain = rest.chain;
      done =
          linked fuel rounds p p' h h' c commands here done (connected-is_parsed k _) ∙ rest.done;
      status = rest.status;
      commands =
          rest.commands
          ∙ append_assoc commands (c ∷ []) _
          ∙ ap (λ (q : Bool). commands ++ (c ∷ meaning q l)) piped;
      over = rest.over;
      unpiped = rest.unpiped;
    }

pub get_command_list-Means :
    (fuel : ℕ) (p : Parser) (h : InputHandler) (l : Line)
    → IsLine (after_pipe p) l
    → left h ≡ print l
    → count l ≤ 50
    → length (print l) + 4 ≤ fuel
    → Means (get_command_list fuel p h) (meaning (after_pipe p) l)
unfolding get_command_list
get_command_list-Means fuel p h l valid e few enough =
    rounds_lem l fuel 50 (record p { end_of_input = false }) h [] valid e few enough

-- A line without a token is no command.
pub get_command_list-blank :
    (fuel : ℕ) (p : Parser) (h : InputHandler)
    → left h ≡ []
    → get_command_list fuel p h
      ≡ some (record {
        parser = record p { end_of_input = false };
        handler = h;
        status = 0;
        commands = [];
      })
unfolding get_command_list
get_command_list-blank fuel p h e =
    stopped fuel 50 (record p { end_of_input = false }) h [] (at_end h e).0

-- A line of up to 50 commands, whose words and file names are no symbols and whose redirections leave
-- the pipes alone, is parsed with success into the chain of commands that it means, and all its
-- tokens are read; the fuel that the loops need is no more than 4 and one for each token. The first
-- command reads from a pipe if the last command parsed before the line writes to one, and only then.
pub get_command_list-print :
    (fuel : ℕ) (p : Parser) (h : InputHandler) (l : Line)
    → IsLine (after_pipe p) l
    → left h ≡ print l
    → count l ≤ 50
    → length (print l) + 4 ≤ fuel
    → (chain : Chain) × (get_command_list fuel p h ≡ some chain)
      × (chain.status ≡ 0)
      × (chain.commands ≡ meaning (after_pipe p) l)
      × (left chain.handler ≡ [])
get_command_list-print fuel p h l valid e few enough =
    let m = get_command_list-Means fuel p h l valid e few enough in
    (m.chain, m.done, m.status, m.commands, m.over)
