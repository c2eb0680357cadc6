-- ===== src/Osh/Tokens.antt =====
-- a2/osh/utils.h: `TokenizeString` and `trim`. A position is none for `npos`. The searches and
-- `substr` are those of `std::string`, `isspace` that of the C locale.
pub mod Words
use unix_sys_prog.Common.{
  ℕ, zero, suc, ◌+◌, ◌-◌, Bool, true, false, not, ◌&&◌, ◌||◌, Option, some, none, List, [], ◌∷◌,
  ◌++◌, ◌==◌, leb, take, drop, length, if◌then◌else◌,
}
use unix_sys_prog.Common.Text.{Text}

unfoldable pub contains : Text → ℕ → Bool
contains [] c = false
contains (d ∷ ds) c = (c == d) || contains ds c

-- The first index, counted from `at`, of a character with the property.
unfoldable pub find_if : (ℕ → Bool) → Text → ℕ → Option ℕ
find_if p [] at = none
find_if p (c ∷ s) at = if p c then some at else find_if p s (at + 1)

unfoldable pub find_first_of : Text → Text → Option ℕ → Option ℕ
find_first_of str delimiters none = none
find_first_of str delimiters (some at) = find_if (contains delimiters) (drop at str) at

unfoldable pub find_first_not_of : Text → Text → Option ℕ → Option ℕ
find_first_not_of str delimiters none = none
find_first_not_of str delimiters (some at) =
    find_if (λ c. not (contains delimiters c)) (drop at str) at

-- `str.substr(lastPos, pos - lastPos)`. With `npos` for `pos` the length is more than is left, and
-- all that is left is taken.
unfoldable pub substr : Text → ℕ → Option ℕ → Text
substr str last none = drop last str
substr str last (some at) = take (at - last) (drop last str)

-- The loop of `TokenizeString`: none when the fuel runs out, or when `substr` throws because
-- `lastPos` is `npos`.
unfoldable pub tokenize_loop :
    ℕ → Text → Text → Option ℕ → Option ℕ → List Text → Option (List Text)
tokenize_loop zero str delimiters last at tokens = none
tokenize_loop (suc fuel) str delimiters none none tokens = some tokens
tokenize_loop (suc fuel) str delimiters none (some at) tokens = none
tokenize_loop (suc fuel) str delimiters (some last) at tokens =
    let last' = find_first_not_of str delimiters at in
    tokenize_loop fuel str delimiters last' (find_first_of str delimiters last')
      (tokens ++ substr str last at ∷ [])

unfoldable pub tokenize_string : ℕ → Text → List Text → Text → Option (List Text)
tokenize_string fuel str tokens delimiters =
    let last = find_first_not_of str delimiters (some 0) in
    tokenize_loop fuel str delimiters last (find_first_of str delimiters last) tokens

unfoldable pub isspace : ℕ → Bool
isspace c = (c == 32) || (leb 9 c && leb c 13)

unfoldable pub ltrim : Text → Text
ltrim [] = []
ltrim (c ∷ s) = if isspace c then ltrim s else c ∷ s

-- From the end: a space goes if nothing is left behind it.
unfoldable pub rtrim : Text → Text
rtrim [] = []
rtrim (c ∷ s) = elim (rtrim s) [ [] ↦ if isspace c then [] else c ∷ [] | d ∷ rest ↦ c ∷ d ∷ rest ]

unfoldable pub trim : Text → Text
trim s = ltrim (rtrim s)
