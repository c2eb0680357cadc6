-- ===== src/Osh/Shell/Sessions.antt =====
-- osh.cpp: a session of the shell, line after line.
use unix_sys_prog.Common.{◌⊎◌, ℕ, ◌+◌, ◌≤◌, ◌≡◌, false, Option, some, List, [], ◌∷◌, map, length}
use unix_sys_prog.Common.Text.{Text, codes}
use unix_sys_prog.Osh.Tokens.{contains, trim}
use unix_sys_prog.Osh.Tokens.Words.{words}
use unix_sys_prog.Osh.Input.{InputHandler}
use unix_sys_prog.Osh.Parser.{Parser, Chain, after_pipe}
use unix_sys_prog.Osh.Parser.Syntax.{Line, print, count, IsLine}
use unix_sys_prog.Osh.Executor.Order.{IsChain}
use unix_sys_prog.Osh.Shell.{Osh}

-- The tokens that the parser is given for a text.
abbrev pub tokens_of : Text → List Text
tokens_of t = map trim (words (contains (codes " ")) t)

-- The handler once a line is read.
abbrev read_handler : Text → InputHandler
read_handler t = record {
  buffer = t;
  tokens = words (contains (codes " ")) t;
  token_index = 0;
  token_length = 0;
}

-- A line that the user may type: nothing but blanks, or the tokens of a line of the language.
abbrev pub IsTyped : ℕ → Text → Type 0
IsTyped fuel t =
    (tokens_of t ≡ [])
    ⊎ ((l : Line) × IsLine false l
        × (tokens_of t ≡ print l)
        × (count l ≤ 50)
        × (length (print l) + 4 ≤ fuel))

abbrev pub AreTyped : ℕ → List Text → Type 0
AreTyped fuel [] = Unit {0}
AreTyped fuel (t ∷ ts) = IsTyped fuel t × AreTyped fuel ts

-- What the parser makes of such a line can be executed, and leaves no pipe behind.
record Parsed (result : Option Chain) : Type 0 where
  chain : Chain
  done : result ≡ some chain
  status : chain.status ≡ 0
  runs : IsChain chain.commands
  unpiped : after_pipe chain.parser ≡ false

-- The next line and those after it; after the end of the input, lines are empty.
abbrev line_of : List Text → Text
line_of [] = []
line_of (t ∷ ts) = t

abbrev after_line : List Text → List Text
after_line [] = []
after_line (t ∷ ts) = ts
