-- ===== src/Osh/Tests.antt =====
-- Tests and instances for a2/osh.
use unix_sys_prog.Common.{
  inr, ℕ, ◌≤◌, ◌≡◌, ◌≢◌, refl, Bool, true, false, Option, some, none, List, [], ◌∷◌, ◌++◌, arith,
  length,
}
use unix_sys_prog.Common.Int.{pos}
use unix_sys_prog.Common.Text.{Text, codes, text_eq}
use unix_sys_prog.Osh.Tokens.{contains, isspace, ltrim, rtrim, trim, tokenize_string}
use unix_sys_prog.Osh.Tokens.Words.{words, tokenize_string-words}
use unix_sys_prog.Osh.Command.{Command, fresh}
use unix_sys_prog.Osh.Input.{InputHandler}
use unix_sys_prog.Osh.Parser.{new_parser, Chain, after_pipe, is_token_symbol, get_command_list}
use unix_sys_prog.Osh.Parser.Reading.{left}
use unix_sys_prog.Osh.Parser.Rounds.{pipe, any, output, connected}
use unix_sys_prog.Osh.Parser.Syntax.{same, file, Simple, Line, last, then_, print, meaning, IsLine}
use unix_sys_prog.Osh.Parser.Chains.{get_command_list-print}
use unix_sys_prog.Osh.Parser.Faults.{get_command_list-word_after_file, get_command_list-refused}
use unix_sys_prog.Osh.Executor.{Event, System, returned, crashed, execute_command_list}
use unix_sys_prog.Osh.Executor.Order.{
  forks, argv_of, Sublist, IsChain, execute_command_list-IsOrderly,
}
use unix_sys_prog.Osh.Child.{ChildSystem, Streams}
use unix_sys_prog.Osh.Shell.Lines.{line_words, line-runs, line-pipe_last}

abbrev handler : List Text → InputHandler
handler tokens = record { buffer = []; tokens = tokens; token_index = 0; token_length = 0 }

abbrev ls : Simple
ls = record { name = codes "ls"; args = codes "-l" ∷ []; from = none; to = same }

abbrev wc : Simple
wc = record { name = codes "wc"; args = []; from = none; to = same }

abbrev echo : Simple
echo = record { name = codes "echo"; args = codes "x" ∷ []; from = none; to = file (codes "f") }

-- `ls -l | wc ; echo x > f`
abbrev line : Line
line = then_ ls pipe (then_ wc any (last echo))

abbrev os : System
os = record { pipe = λ es. inr (3, 4); fork = λ es. some 100; waitpid = λ es pid. pos 1 }

os_forks : (es : List Event) → os.fork es ≢ none
os_forks es h = cc

line-IsLine : IsLine false line
unfolding is_token_symbol text_eq
line-IsLine = (
  record { words = (refl, (refl, tt)); from = tt; to = tt; unpiped = λ h. cc },
  λ _. refl,
  (
    record { words = (refl, tt); from = tt; to = tt; unpiped = λ _. refl },
    λ h. cc,
    record { words = (refl, (refl, tt)); from = tt; to = refl; unpiped = λ h. cc },
  ),
)

line-left : left (handler (print line)) ≡ print line
unfolding trim ltrim rtrim isspace
line-left = refl

get_command_list-print_example :
    (chain : Chain) × (get_command_list 20 new_parser (handler (print line)) ≡ some chain)
    × (chain.status ≡ 0)
    × (chain.commands ≡ meaning false line)
    × (left chain.handler ≡ [])
get_command_list-print_example =
    get_command_list-print 20 new_parser (handler (print line)) line line-IsLine line-left
      (omega arith) (omega arith)

line-runs_example :
    (chain : Chain) × (status : ℕ) × (stop : Bool) × (calls : List Event) × (ran : List
      (Option (List Text)))
    × (get_command_list 20 new_parser (handler (print line)) ≡ some chain)
    × (chain.status ≡ 0)
    × (execute_command_list os (0, 0) [] chain.commands ≡ returned status stop calls)
    × (forks calls ≡ forks [] ++ ran)
    × Sublist ran (line_words line)
    × (length ran ≤ 20)
line-runs_example =
    line-runs 20 new_parser (handler (print line)) line os (0, 0) [] line-IsLine line-left
      (omega arith) (omega arith) os_forks

abbrev listing : Command
listing = record fresh { argv = some (codes "ls" ∷ []) }

listing-IsChain : IsChain (connected pipe listing ∷ listing ∷ [])
listing-IsChain = (λ h. cc, λ _. refl, (λ h. cc, λ h. cc, tt))

execute_command_list-IsOrderly_example :
    (status : ℕ) × (stop : Bool) × (calls : List Event) × (ran : List (Option (List Text)))
    × (execute_command_list os (0, 0) [] (connected pipe listing ∷ listing ∷ [])
        ≡ returned status stop calls)
    × (forks calls ≡ forks [] ++ ran)
    × Sublist ran (argv_of (connected pipe listing ∷ listing ∷ []))
    × (length ran ≤ 20)
execute_command_list-IsOrderly_example =
    execute_command_list-IsOrderly os os_forks (0, 0) [] (connected pipe listing ∷ listing ∷ [])
      listing-IsChain

tokenize_string-words_example :
    tokenize_string 9 (codes " ls  -l ") [] (codes " ")
    ≡ some ([] ++ words (contains (codes " ")) (codes " ls  -l "))
tokenize_string-words_example = tokenize_string-words (codes " ") (codes " ls  -l ") []

words_example : words (contains (codes " ")) (codes " ls  -l ") ≡ codes "ls" ∷ codes "-l" ∷ []
unfolding words contains
words_example = refl

-- `ls > f -l`
abbrev after_file : List Text
after_file = codes "ls" ∷ codes ">" ∷ codes "f" ∷ codes "-l" ∷ []

get_command_list-word_after_file_example :
    get_command_list 1000 new_parser (handler after_file) ≡ none
unfolding trim ltrim rtrim isspace is_token_symbol text_eq
get_command_list-word_after_file_example =
    get_command_list-word_after_file 1000 new_parser (handler after_file) (codes "ls") [] output
      (codes "f") (codes "-l") [] refl (refl, tt) refl refl refl (omega arith)

-- `wc | wc < f`
abbrev mixed : List Text
mixed = codes "wc" ∷ codes "|" ∷ codes "wc" ∷ codes "<" ∷ codes "f" ∷ []

get_command_list-refused_example :
    (chain : Chain) × (get_command_list 1000 new_parser (handler mixed) ≡ some chain)
    × (chain.status ≡ 1)
    × (chain.commands ≡ [])
    × (after_pipe chain.parser ≡ true)
unfolding trim ltrim rtrim isspace is_token_symbol text_eq
get_command_list-refused_example =
    get_command_list-refused 1000 new_parser (handler mixed) wc (codes "wc") [] (codes "f") []
      (record { words = (refl, tt); from = tt; to = tt; unpiped = λ h. cc }) refl (refl, tt) refl
      (omega arith)

-- `wc |`
line-pipe_last_example :
    (chain : Chain) × (get_command_list 1000 new_parser (handler (codes "wc" ∷ codes "|" ∷ []))
      ≡ some chain)
    × (chain.status ≡ 0)
    × (execute_command_list os (0, 0) [] chain.commands ≡ crashed)
unfolding trim ltrim rtrim isspace is_token_symbol text_eq
line-pipe_last_example =
    line-pipe_last 1000 new_parser (handler (codes "wc" ∷ codes "|" ∷ [])) wc os (0, 0) (3, 4) []
      (record { words = (refl, tt); from = tt; to = tt; unpiped = λ h. cc }) refl refl refl
      (omega arith) refl

abbrev child : ChildSystem
child = record {
  opened = λ f mode. inr 5;
  dup_stdin = λ fid. none;
  dup_stdout = λ fid. none;
  execvp = λ bin argv. none;
}

abbrev streams : Streams
streams = record { stdin = 0; stdout = 1 }
