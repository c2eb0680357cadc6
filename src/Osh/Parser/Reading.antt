-- ===== src/Osh/Parser/Reading.antt =====
-- InputHandler.cpp and parser.cpp: the handler as the list of the tokens that are left, and the loop
-- of `initArgv` on it.
use unix_sys_prog.Common.{
  ℕ, zero, suc, ◌+◌, ◌<◌, ◌≡◌, refl, Bool, true, false, some, List, [], ◌∷◌, ◌++◌, map, arith,
  length, get_or, drop, ltb,
}
use mathlib.Core.List.{append-nil, append_assoc}
use unix_sys_prog.Common.Text.{Text}
use unix_sys_prog.Osh.Tokens.{trim}
use unix_sys_prog.Osh.Input.{InputHandler, is_end_of_line, get_next_token, peek_next_token}
use unix_sys_prog.Osh.Parser.{is_token_symbol, collect}

-- The tokens that `getNextToken` has still to return.
abbrev pub left : InputHandler → List Text
left h = map trim (drop h.token_index h.tokens)

-- The handler after a token.
abbrev pub next : InputHandler → InputHandler
next h = record h { token_index = h.token_index + 1 }

drop-nil : (n : ℕ) (xs : List Text) → map trim (drop n xs) ≡ [] → ltb n (length xs) ≡ false
drop-nil zero [] h = refl
drop-nil (suc n) [] h = ground arith
drop-nil zero (x ∷ xs) h = cc
drop-nil (suc n) (x ∷ xs) h = ground (arith, drop-nil n xs h)

drop-cons :
    (n : ℕ) (xs : List Text) (t : Text) (ts : List Text)
    → map trim (drop n xs) ≡ t ∷ ts
    → (ltb n (length xs) ≡ true) × (trim (get_or xs n []) ≡ t) × (map trim (drop (n + 1) xs) ≡ ts)
drop-cons zero [] t ts h = cc
drop-cons (suc n) [] t ts h = cc
drop-cons zero (x ∷ xs) t ts h = ground arith
drop-cons (suc n) (x ∷ xs) t ts h = ground (arith, drop-cons n xs t ts h)

-- Where no token is left.
pub at_end :
    (h : InputHandler)
    → left h ≡ []
    → (is_end_of_line h ≡ true) × (peek_next_token h ≡ ([], 1)) × (get_next_token h ≡ (h, [], 1))
unfolding is_end_of_line peek_next_token get_next_token
at_end h e = ground (arith, drop-nil h.token_index h.tokens e)

-- Where a token is left.
pub at_token :
    (h : InputHandler) (t : Text) (ts : List Text)
    → left h ≡ t ∷ ts
    → (is_end_of_line h ≡ false)
      × (peek_next_token h ≡ (t, 0))
      × (get_next_token h ≡ (next h, t, 0))
      × (left (next h) ≡ ts)
unfolding is_end_of_line peek_next_token get_next_token
at_token h t ts e = ground (arith, drop-cons h.token_index h.tokens t ts e)

-- Words that are no symbols.
abbrev pub Plain : List Text → Type 0
Plain [] = Unit {0}
Plain (w ∷ ws) = (is_token_symbol w ≡ false) × Plain ws

-- What comes next is nothing, or a symbol.
abbrev pub Stops : List Text → Type 0
Stops [] = Unit {0}
Stops (t ∷ ts) = is_token_symbol t ≡ true

abbrev pub is_empty : List Text → Bool
is_empty [] = true
is_empty (t ∷ ts) = false

-- The loop of `initArgv` takes the words in front of the next symbol.
pub collect_lem :
    (ws rest : List Text) (fuel : ℕ) (h : InputHandler) (tokens : List Text)
    → length ws < fuel
    → Plain ws
    → Stops rest
    → left h ≡ ws ++ rest
    → (h' : InputHandler) × (collect fuel h tokens ≡ some (h', tokens ++ ws, is_empty rest))
      × (left h' ≡ rest)
unfolding collect
collect_lem ws rest zero h tokens lt p s e = absurd (omega arith)
collect_lem [] [] (suc fuel) h tokens lt p s e =
    let none_left = at_end h e in (h, ground (arith, none_left, append-nil tokens), e)
collect_lem [] (t ∷ ts) (suc fuel) h tokens lt p s e =
    let at = at_token h t ts e in (h, ground (arith, at, s, append-nil tokens), e)
collect_lem (w ∷ ws) rest (suc fuel) h tokens lt (plain, p) s e =
    let (_, peek, get, after) = at_token h w (ws ++ rest) e in
    let (h', done, e') =
      collect_lem ws rest fuel (next h) (tokens ++ w ∷ []) (omega arith) p s after in
    (h', ground (arith, peek, get, plain, done, append_assoc tokens (w ∷ []) ws), e')
