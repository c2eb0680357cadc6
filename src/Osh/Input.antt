-- ===== src/Osh/Input.antt =====
-- a2/osh/InputHandler.cpp: class InputHandler, the tokens of the line that was read and the index
-- of the next one. The index stands as the comparison with `size()` takes it, so the -1 of `clear` is
-- the largest 64-bit number.
use unix_sys_prog.Common.{
  ℕ, suc, ◌+◌, ◌-◌, ◌^◌, Bool, true, false, Option, some, none, List, [], length, get_or, ltb,
  if◌then◌else◌,
}
use unix_sys_prog.Common.Text.{Text, codes}
use unix_sys_prog.Osh.Symbols.{status_success, status_fail}
use unix_sys_prog.Osh.Tokens.{tokenize_string, trim}

pub record InputHandler : Type 0 where
  pub buffer : Text
  pub tokens : List Text
  pub token_index : ℕ
  pub token_length : ℕ

unfoldable pub is_end_of_line : InputHandler → Bool
is_end_of_line h = if ltb h.token_index (length h.tokens) then false else true

unfoldable pub clear : InputHandler → InputHandler
clear h = record { buffer = []; tokens = []; token_index = 2 ^ 64 - 1; token_length = 0 }

-- `Tokenize`, with one round of fuel for each character and one more.
unfoldable pub tokenize : InputHandler → Option InputHandler
tokenize h = elim (tokenize_string (suc (length h.buffer)) h.buffer [] (codes " ")) [
  | none ↦ none
  | some temp ↦ some (record h { tokens = temp; token_index = 0 })
]

-- `readInput` of a line.
unfoldable pub read_input : Text → InputHandler → Option InputHandler
read_input line h = tokenize (record h { buffer = line })

-- `getNextToken`: the handler, the token and the status.
unfoldable pub get_next_token : InputHandler → InputHandler × Text × ℕ
get_next_token h =
    if ltb h.token_index (length h.tokens)
    then (
      record h { token_index = h.token_index + 1 },
      trim (get_or h.tokens h.token_index []),
      status_success,
    )
    else (h, [], 1)

-- `peekNextToken`: the token and the status.
unfoldable pub peek_next_token : InputHandler → Text × ℕ
peek_next_token h =
    if ltb h.token_index (length h.tokens)
    then (trim (get_or h.tokens h.token_index []), status_success)
    else ([], status_fail)
