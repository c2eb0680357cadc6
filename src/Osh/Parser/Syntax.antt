-- ===== src/Osh/Parser/Syntax.antt =====
-- The command lines that the shell is for: simple commands with their redirections, joined by
-- connectors; the tokens that stand for them, and the chain of commands that they mean.
use unix_sys_prog.Common.{
  ℕ, suc, ◌≡◌, Bool, true, false, Option, some, none, List, [], ◌∷◌, ◌++◌, if◌then◌else◌,
}
use unix_sys_prog.Common.Text.{Text}
use unix_sys_prog.Osh.Symbols.{i_stdin, i_pipe, need_token}
use unix_sys_prog.Osh.Command.{Command, fresh}
use unix_sys_prog.Osh.Parser.{is_token_symbol, to_parsed}
use unix_sys_prog.Osh.Parser.Reading.{Plain}
use unix_sys_prog.Osh.Parser.Rounds.{
  Connector, pipe, symbol_of, connected, input, output, appending, sign, redirected,
}

pub data Output : Type 0 where
  same : Output
  file more : Text → Output

pub record Simple : Type 0 where
  pub name : Text
  pub args : List Text
  pub from : Option Text
  pub to : Output

pub data Line : Type 0 where
  last : Simple → Line
  then_ : Simple → Connector → Line → Line

abbrev pub from_tokens : Option Text → List Text
from_tokens none = []
from_tokens (some f) = sign input ∷ f ∷ []

abbrev pub to_tokens : Output → List Text
to_tokens same = []
to_tokens (file f) = sign output ∷ f ∷ []
to_tokens (more f) = sign appending ∷ f ∷ []

abbrev pub words_of : Simple → List Text
words_of s = s.name ∷ s.args

-- The tokens of a line.
abbrev pub print : Line → List Text
print (last s) = words_of s ++ (from_tokens s.from ++ (to_tokens s.to ++ []))
print (then_ s k l) =
    words_of s ++ (from_tokens s.from ++ (to_tokens s.to ++ (symbol_of k ∷ print l)))

abbrev pub from_applied : Option Text → Command → Command
from_applied none c = c
from_applied (some f) c = redirected input f c

abbrev pub to_applied : Output → Command → Command
to_applied same c = c
to_applied (file f) c = redirected output f c
to_applied (more f) c = redirected appending f c

-- A command that reads from a pipe or not, with its words.
abbrev pub begun : Bool → List Text → Command
begun piped words = record fresh {
  argv = some words;
  input_mode = if piped then i_pipe else i_stdin;
  parse_state = need_token;
}

abbrev pub directed : Bool → Simple → Command
directed piped s = to_applied s.to (from_applied s.from (begun piped (words_of s)))

abbrev pub is_bar : Connector → Bool
is_bar pipe = true
is_bar k = false

-- The chain that a line means, from its first command, which reads from a pipe or not.
abbrev pub meaning : Bool → Line → List Command
meaning piped (last s) = to_parsed (directed piped s) ∷ []
meaning piped (then_ s k l) = connected k (directed piped s) ∷ meaning (is_bar k) l

-- How many commands a line has.
abbrev pub count : Line → ℕ
count (last s) = 1
count (then_ s k l) = suc (count l)

abbrev pub PlainFrom : Option Text → Type 0
PlainFrom none = Unit {0}
PlainFrom (some f) = is_token_symbol f ≡ false

abbrev pub PlainTo : Output → Type 0
PlainTo same = Unit {0}
PlainTo (file f) = is_token_symbol f ≡ false
PlainTo (more f) = is_token_symbol f ≡ false

-- No word and no file name is a symbol, and a command that reads from a pipe has no `<`.
pub record IsSimple (piped : Bool) (s : Simple) : Type 0 where
  pub words : Plain (words_of s)
  pub from : PlainFrom s.from
  pub to : PlainTo s.to
  pub unpiped : piped ≡ true → s.from ≡ none

-- Neither has a command that writes to a pipe a `>`.
abbrev pub IsLine : Bool → Line → Type 0
IsLine piped (last s) = IsSimple piped s
IsLine piped (then_ s k l) = IsSimple piped s × (k ≡ pipe → s.to ≡ same) × IsLine (is_bar k) l
