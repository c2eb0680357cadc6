-- ===== src/Vmm/Run/Atoi.antt =====
-- The C library's `atoi`, which main.cpp uses for the addresses and the number of frames: blanks, a
-- sign, then digits up to the first other character. (What it does beyond the range of `int` is
-- undefined, and not described here.)
use unix_sys_prog.Common.{
  ℕ, ◌+◌, ◌-◌, ◌*◌, Bool, ◌&&◌, ◌||◌, List, [], ◌∷◌, leb, ◌==◌, if◌then◌else◌,
}
use unix_sys_prog.Common.Int.{ℤ, pos, negate}

pub is_space : ℕ → Bool
is_space c = (c == b' ') || (leb 9 c && leb c 13)

pub is_digit : ℕ → Bool
is_digit c = leb b'0' c && leb c b'9'

unfoldable pub skip_space : List ℕ → List ℕ
unfolding is_space
skip_space [] = []
skip_space (c ∷ cs) = if is_space c then skip_space cs else c ∷ cs

unfoldable pub digits_value : ℕ → List ℕ → ℕ
unfolding is_digit
digits_value acc [] = acc
digits_value acc (c ∷ cs) =
    let more = digits_value (acc * 10 + (c - b'0')) cs in if is_digit c then more else acc

unfoldable pub signed_value : List ℕ → ℤ
unfolding digits_value
signed_value [] = pos 0
signed_value (c ∷ cs) =
    if c == b'-'
    then negate (digits_value 0 cs)
    else if c == b'+'
    then pos (digits_value 0 cs)
    else pos (digits_value 0 (c ∷ cs))

unfoldable pub atoi : List ℕ → ℤ
unfolding skip_space signed_value
atoi text = signed_value (skip_space text)
