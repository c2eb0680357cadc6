-- ===== src/Osh/Parser/RoundTrip.antt =====
-- parser.cpp: `getCommandList` makes of the tokens of a line the chain that the line means.
use unix_sys_prog.Common.{
  ◌⊎◌, inl, inr, ℕ, zero, suc, ◌+◌, ◌<◌, ◌≤◌, ◌≡◌, refl, ap, ◌∙◌, Bool, true, false, Option, some,
  none, List, [], ◌∷◌, ◌++◌, arith, length, if◌then◌else◌,
}
use unix_sys_prog.Common.Text.{Text, text_eq}
use unix_sys_prog.Osh.Symbols.{i_stdin, o_stdout, need_token, parsed}
use unix_sys_prog.Osh.Command.{Command, fresh}
use unix_sys_prog.Osh.Input.{InputHandler}
use unix_sys_prog.Osh.Parser.{
  Parser, after_pipe, init_command, with_argv, init_argv, symbols, to_parsed, parse_command,
  collect, is_token_symbol,
}
use unix_sys_prog.Osh.Parser.Reading.{left, next, is_empty, Plain, Stops, collect_lem}
use unix_sys_prog.Osh.Parser.Rounds.{
  Connector, pipe, any, onsuccess, onfailure, symbol_of, connected, symbols-connector, Redirection,
  input, output, appending, sign, redirected, Untouched, symbols-redirection,
}
use unix_sys_prog.Osh.Parser.Syntax.{
  Output, same, file, more, Simple, from_tokens, to_tokens, words_of, from_applied, to_applied,
  begun, directed, PlainFrom, PlainTo, IsSimple,
}

-- What follows a simple command: nothing, or a connector and more tokens.
abbrev Tail : Type 0
Tail = Option (Connector × List Text)

abbrev tail_tokens : Tail → List Text
tail_tokens none = []
tail_tokens (some (k, ts)) = symbol_of k ∷ ts

abbrev beyond : Tail → List Text
beyond none = []
beyond (some (k, ts)) = ts

abbrev pub ended : Tail → Command → Command
ended none c = to_parsed c
ended (some (k, ts)) c = connected k c

-- A pipe that follows finds the standard output.
abbrev Free : Tail → Command → Type 0
Free none c = Unit {0}
Free (some (k, ts)) c = k ≡ pipe → c.output_mode ≡ o_stdout

-- The inner loop, when it goes on only if a token is left.
abbrev resume : ℕ → InputHandler → Command → List Text → Option (InputHandler × Command × ℕ)
resume fuel h c ts = if is_empty ts then some (h, to_parsed c, 0) else symbols fuel h c 0

abbrev Reaches : Option (InputHandler × Command × ℕ) → Command → List Text → Type 0
Reaches result c ts = (h' : InputHandler) × (result ≡ some (h', c, 0)) × (left h' ≡ ts)

tail_lem :
    (fuel : ℕ) (h : InputHandler) (c : Command) (tail : Tail)
    → c.parse_state ≡ need_token
    → Free tail c
    → left h ≡ tail_tokens tail
    → Reaches (resume (suc fuel) h c (tail_tokens tail)) (ended tail c) (beyond tail)
tail_lem fuel h c none state free e = (h, refl, e)
tail_lem fuel h c (some (k, ts)) state free e =
    let (done, after) = symbols-connector fuel h c k ts state free e in (next h, done, after)

-- Through one redirection.
through :
    (fuel : ℕ) (h : InputHandler) (c c' : Command) (r : Redirection) (f : Text)
    (ts rest : List Text)
    → c.parse_state ≡ need_token
    → Untouched r c
    → is_token_symbol f ≡ false
    → left h ≡ sign r ∷ f ∷ ts
    → ((h' : InputHandler) → left h' ≡ ts → Reaches (resume fuel h' (redirected r f c) ts) c' rest)
    → Reaches (symbols (suc fuel) h c 0) c' rest
through fuel h c c' r f ts rest state free plain e go =
    let (round, after) = symbols-redirection fuel h c r f ts state free plain e in
    let (h', done, e') = go (next (next h)) after in (h', round ∙ done, e')

to_lem :
    (fuel : ℕ) (h : InputHandler) (c : Command) (to : Output) (tail : Tail)
    → c.parse_state ≡ need_token
    → c.output_mode ≡ o_stdout
    → PlainTo to
    → Free tail (to_applied to c)
    → left h ≡ to_tokens to ++ tail_tokens tail
    → Reaches
        (resume (suc (suc fuel)) h c (to_tokens to ++ tail_tokens tail))
        (ended tail (to_applied to c))
        (beyond tail)
to_lem fuel h c same tail state out plain free e = tail_lem (suc fuel) h c tail state free e
to_lem fuel h c (file f) tail state out plain free e =
    through (suc fuel) h c _ output f (tail_tokens tail) _ state out plain e
      (λ h' e'. tail_lem fuel h' (redirected output f c) tail state free e')
to_lem fuel h c (more f) tail state out plain free e =
    through (suc fuel) h c _ appending f (tail_tokens tail) _ state out plain e
      (λ h' e'. tail_lem fuel h' (redirected appending f c) tail state free e')

from_lem :
    (fuel : ℕ) (h : InputHandler) (c : Command) (from : Option Text) (to : Output) (tail : Tail)
    → c.parse_state ≡ need_token
    → c.output_mode ≡ o_stdout
    → ((from ≡ none) ⊎ (c.input_mode ≡ i_stdin))
    → PlainFrom from
    → PlainTo to
    → Free tail (to_applied to (from_applied from c))
    → left h ≡ from_tokens from ++ (to_tokens to ++ tail_tokens tail)
    → Reaches
        (resume (suc (suc (suc fuel))) h c (from_tokens from ++ (to_tokens to ++ tail_tokens tail)))
        (ended tail (to_applied to (from_applied from c)))
        (beyond tail)
from_lem fuel h c none to tail state out untouched plain plain' free e =
    to_lem (suc fuel) h c to tail state out plain' free e
from_lem fuel h c (some f) to tail state out untouched plain plain' free e =
    through (suc (suc fuel)) h c _ input f (to_tokens to ++ tail_tokens tail) _ state
      (elim untouched [ inl gone ↦ cc | inr std ↦ std ]) plain e
      (λ h' e'. to_lem fuel h' (redirected input f c) to tail state out plain' free e')

-- How the inner loop begins: at the end of the line `initArgv` has made the command `Parsed`.
started :
    (fuel : ℕ) (h : InputHandler) (c : Command) (ts : List Text)
    → c.parse_state ≡ need_token
    → symbols (suc fuel) h (if is_empty ts then record c { parse_state = parsed } else c) 0
      ≡ resume (suc fuel) h c ts
unfolding symbols
started fuel h c [] state = rw state refl
started fuel h c (t ∷ ts) state = refl

init_command_lem :
    (p : Parser) → init_command p fresh ≡ record (begun (after_pipe p) []) { argv = none }
unfolding init_command
init_command_lem p = ground arith

init_argv-collect :
    (fuel : ℕ) (p : Parser) (h h' : InputHandler) (c : Command) (w : Text) (ws : List Text)
    (over : Bool)
    → collect fuel h [] ≡ some (h', w ∷ ws, over)
    → init_argv fuel p h c
      ≡ some (
        if over then record p { end_of_input = true } else p,
        h',
        if over
            then record c { argv = some (w ∷ ws); parse_state = parsed }
            else record c { argv = some (w ∷ ws) },
      )
unfolding init_argv with_argv
init_argv-collect fuel p h h' c w ws true e = ground (arith, e)
init_argv-collect fuel p h h' c w ws false e = ground (arith, e)

-- A command with the words in front of a symbol or the end.
pub init_argv_lem :
    (fuel : ℕ) (p : Parser) (h : InputHandler) (name : Text) (args rest : List Text)
    → length args + 1 < fuel
    → Plain (name ∷ args)
    → Stops rest
    → left h ≡ (name ∷ args) ++ rest
    → (p' : Parser) × (h' : InputHandler) × (init_argv fuel p h (init_command p fresh)
        ≡ some (
          p',
          h',
          if is_empty rest
              then record (begun (after_pipe p) (name ∷ args)) { parse_state = parsed }
              else begun (after_pipe p) (name ∷ args),
        ))
      × (p'.prev_command ≡ p.prev_command)
      × (left h' ≡ rest)
unfolding init_argv with_argv
init_argv_lem fuel p h name args rest lt plain stops e =
    let (h', done, e') = collect_lem (name ∷ args) rest fuel h [] (omega arith) plain stops e in
    (
      if is_empty rest then record p { end_of_input = true } else p,
      h',
      ap (init_argv fuel p h) (init_command_lem p)
          ∙ init_argv-collect fuel p h h' _ name args (is_empty rest) done,
      kept rest,
      e',
    )
  where
    kept :
        (rest : List Text)
        → (if is_empty rest then record p { end_of_input = true } else p).prev_command
          ≡ p.prev_command
    kept [] = refl
    kept (t ∷ ts) = refl

-- `initCommand` and the rest for one command.
parse_command-init_argv :
    (fuel : ℕ) (p p' : Parser) (h h' h'' : InputHandler) (c c' : Command) (ts : List Text)
    → init_argv (suc fuel) p h (init_command p fresh)
      ≡ some (p', h', if is_empty ts then record c { parse_state = parsed } else c)
    → c.parse_state ≡ need_token
    → resume (suc fuel) h' c ts ≡ some (h'', c', 0)
    → parse_command (suc fuel) p h ≡ some (p', h'', c', 0)
unfolding parse_command
parse_command-init_argv fuel p p' h h' h'' c c' [] first state looped =
    let begins = started fuel h' c [] state in ground (arith, first, begins, looped, state)
parse_command-init_argv fuel p p' h h' h'' c c' (t ∷ ts) first state looped =
    let begins = started fuel h' c (t ∷ ts) state in ground (arith, first, begins, looped, state)

tail-Stops : (tail : Tail) → Stops (tail_tokens tail)
unfolding is_token_symbol text_eq
tail-Stops none = tt
tail-Stops (some (pipe, ts)) = refl
tail-Stops (some (any, ts)) = refl
tail-Stops (some (onsuccess, ts)) = refl
tail-Stops (some (onfailure, ts)) = refl

pub sign-symbol : (r : Redirection) → is_token_symbol (sign r) ≡ true
unfolding is_token_symbol text_eq
sign-symbol input = refl
sign-symbol output = refl
sign-symbol appending = refl

pub rest-Stops :
    (from : Option Text) (to : Output) (tail : Tail)
    → Stops (from_tokens from ++ (to_tokens to ++ tail_tokens tail))
rest-Stops (some f) to tail = sign-symbol input
rest-Stops none (file f) tail = sign-symbol output
rest-Stops none (more f) tail = sign-symbol appending
rest-Stops none same tail = tail-Stops tail

directed-state : (b : Bool) (s : Simple) → (directed b s).parse_state ≡ need_token
directed-state b s = ground arith

-- One command of a line.
pub parse_command_lem :
    (fuel : ℕ) (p : Parser) (h : InputHandler) (s : Simple) (tail : Tail)
    → length s.args + 4 ≤ fuel
    → IsSimple (after_pipe p) s
    → Free tail (directed (after_pipe p) s)
    → left h ≡ words_of s ++ (from_tokens s.from ++ (to_tokens s.to ++ tail_tokens tail))
    → (p' : Parser) × (h' : InputHandler) × (parse_command fuel p h
        ≡ some (p', h', ended tail (directed (after_pipe p) s), 0))
      × (p'.prev_command ≡ p.prev_command)
      × (left h' ≡ beyond tail)
parse_command_lem zero p h s tail enough simple free e = absurd (omega arith)
parse_command_lem (suc zero) p h s tail enough simple free e = absurd (omega arith)
parse_command_lem (suc (suc zero)) p h s tail enough simple free e = absurd (omega arith)
parse_command_lem (suc (suc (suc fuel))) p h s tail enough simple free e =
    let rest = from_tokens s.from ++ (to_tokens s.to ++ tail_tokens tail) in
    let c = begun (after_pipe p) (words_of s) in
    let (p', h', first, kept, e') =
      init_argv_lem (suc (suc (suc fuel))) p h s.name s.args rest (omega arith) simple.words
        (rest-Stops s.from s.to tail) e in
    let (h'', looped, e'') =
      from_lem fuel h' c s.from s.to tail refl refl (untouched (after_pipe p) s simple) simple.from
        simple.to free e' in
    (
      p',
      h'',
      parse_command-init_argv (suc (suc fuel)) p p' h h' h'' c _ rest first refl looped,
      kept,
      e'',
    )
  where
    untouched :
        (b : Bool) (s : Simple)
        → IsSimple b s
        → (s.from ≡ none) ⊎ ((begun b (words_of s)).input_mode ≡ i_stdin)
    untouched true s i = inl (i.unpiped refl)
    untouched false s i = inr refl
