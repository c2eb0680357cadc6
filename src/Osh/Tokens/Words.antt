-- ===== src/Osh/Tokens/Words.antt =====
-- utils.h: `TokenizeString` cuts a text into its words, the longest runs without a delimiter.
use mathlib.Core.List.{append_assoc, append-nil}
use unix_sys_prog.Common.{
  inl, inr, ℕ, zero, suc, ◌+◌, ◌-◌, ◌<◌, ◌≤◌, ◌≡◌, refl, ap, ◌∙◌, sym, Bool, true, false, not,
  Option, some, none, List, [], ◌∷◌, ◌++◌, arith, length, take, drop, Bool-cases, if◌then◌else◌,
}
use unix_sys_prog.Common.Text.{Text}
use unix_sys_prog.Osh.Tokens.{
  contains, find_if, find_first_of, find_first_not_of, substr, tokenize_loop, tokenize_string,
}

-- The text in front of the first character with the property, and the text from it on.
before : (ℕ → Bool) → Text → Text
before q [] = []
before q (c ∷ s) = if q c then [] else c ∷ before q s

dropped : (ℕ → Bool) → Text → Text
dropped q [] = []
dropped q (c ∷ s) = if q c then c ∷ s else dropped q s

-- Whether the text begins with a character of a word.
abbrev begins : (ℕ → Bool) → Text → Bool
begins p [] = false
begins p (c ∷ s) = not (p c)

-- A character in front of the first word, or a word of its own.
abbrev glue : Bool → ℕ → List Text → List Text
glue true c (w ∷ ws) = (c ∷ w) ∷ ws
glue true c [] = (c ∷ []) ∷ []
glue false c ws = (c ∷ []) ∷ ws

-- The words of a text, by structural recursion; `p` are the delimiters.
unfoldable pub words : (ℕ → Bool) → Text → List Text
words p [] = []
words p (c ∷ s) = if p c then words p s else glue (begins p s) c (words p s)

words-nil : (p : ℕ → Bool) → words p [] ≡ []
unfolding words
words-nil p = refl

words-dropped : (p : ℕ → Bool) (t : Text) → words p t ≡ words p (dropped (λ c. not (p c)) t)
unfolding words dropped
words-dropped p [] = refl
words-dropped p (c ∷ s) = ground (arith, words-dropped p s)

-- The first word of a text that begins with one.
words-before :
    (p : ℕ → Bool) (c : ℕ) (s : Text)
    → p c ≡ false
    → words p (c ∷ s) ≡ before p (c ∷ s) ∷ words p (dropped p (c ∷ s))
unfolding words before dropped
words-before p c [] h = ground (arith, h)
words-before p c (d ∷ s) h = elim (Bool-cases (p d)) [
  | inl stop ↦ ground (arith, h, stop)
  | inr on ↦ ground (arith, h, on, words-before p d s on)
]

length-dropped : (q : ℕ → Bool) (t : Text) → length (dropped q t) ≤ length t
unfolding dropped
length-dropped q [] = omega arith
length-dropped q (c ∷ s) = ground (arith, length-dropped q s)

drop_suc : (str : Text) (i c : ℕ) (s : Text) → drop i str ≡ c ∷ s → drop (i + 1) str ≡ s
drop_suc [] zero c s e = cc
drop_suc [] (suc i) c s e = cc
drop_suc (x ∷ str) zero c s e = ground arith
drop_suc (x ∷ str) (suc i) c s e =
    let n : suc i + 1 ≡ suc (i + 1) = omega arith in
    ap (λ (n : ℕ). drop n (x ∷ str)) n ∙ drop_suc str i c s e

-- What a search from index `i` finds in the text `str`, of which `t` is left there.
data Search (q : ℕ → Bool) (str : Text) (i : ℕ) (t : Text) : Type 0 where
  found :
      (j c : ℕ) (s : Text)
      → find_if q t i ≡ some j
      → i ≤ j
      → drop j str ≡ c ∷ s
      → q c ≡ true
      → dropped q t ≡ c ∷ s
      → take (j - i) t ≡ before q t
      → Search q str i t
  missing : find_if q t i ≡ none → dropped q t ≡ [] → before q t ≡ t → Search q str i t

search : (q : ℕ → Bool) (str t : Text) (i : ℕ) → drop i str ≡ t → Search q str i t
unfolding find_if dropped before
search q str [] i e = missing refl refl refl
search q str (c ∷ s) i e = elim (Bool-cases (q c)) [
  | inl hit ↦
      let at : i - i ≡ 0 = omega arith in
      found i c s (ground (arith, hit)) (omega arith) e hit (ground (arith, hit))
        (ap (λ (n : ℕ). take n (c ∷ s)) at ∙ ground (arith, hit))
  | inr miss ↦ elim (search q str s (i + 1) (drop_suc str i c s e)) [
    | found j d r f le at_ h drops takes ↦
        let n : j - i ≡ suc (j - (i + 1)) = omega arith in
        found j d r (ground (arith, miss, f)) (omega arith) at_ h (ground (arith, miss, drops))
          (ap (λ (n : ℕ). take n (c ∷ s)) n ∙ ground (arith, miss, takes))
    | missing f drops befores ↦
        missing (ground (arith, miss, f)) (ground (arith, miss, drops))
          (ground (arith, miss, befores))
  ]
]

module _ (delimiters : Text) where
  abbrev p : ℕ → Bool
  p = contains delimiters

  abbrev not_p : ℕ → Bool
  not_p c = not (contains delimiters c)

  -- With no word left, the loop ends.
  no_words :
      (fuel : ℕ) (str : Text) (tokens : List Text)
      → 0 < fuel
      → tokenize_loop fuel str delimiters none none tokens ≡ some tokens
  unfolding tokenize_loop
  no_words zero str tokens enough = absurd (omega arith)
  no_words (suc fuel) str tokens enough = refl

  first_of :
      (str t : Text) (i : ℕ)
      → drop i str ≡ t
      → find_first_of str delimiters (some i) ≡ find_if p t i
  unfolding find_first_of
  first_of str t i e = ap (λ (u : Text). find_if p u i) e

  first_not_of :
      (str t : Text) (i : ℕ)
      → drop i str ≡ t
      → find_first_not_of str delimiters (some i) ≡ find_if not_p t i
  unfolding find_first_not_of
  first_not_of str t i e = ap (λ (u : Text). find_if not_p u i) e

  of_npos : (str : Text) → find_first_of str delimiters none ≡ none
  unfolding find_first_of
  of_npos str = refl

  not_of_npos : (str : Text) → find_first_not_of str delimiters none ≡ none
  unfolding find_first_not_of
  not_of_npos str = refl

  substr_lem :
      (str t : Text) (last j : ℕ) → drop last str ≡ t → substr str last (some j) ≡ take (j - last) t
  unfolding substr
  substr_lem str t last j e = ap (λ (u : Text). take (j - last) u) e

  substr_rest : (str t : Text) (last : ℕ) → drop last str ≡ t → substr str last none ≡ t
  unfolding substr
  substr_rest str t last e = e

  shorter :
      (c d d' : ℕ) (s r r' : Text)
      → p c ≡ false
      → dropped p (c ∷ s) ≡ d ∷ r
      → dropped not_p (d ∷ r) ≡ d' ∷ r'
      → length r' < length s
  unfolding dropped
  shorter c d d' s r r' word e e' =
      let rest : dropped p s ≡ d ∷ r = ground (arith, word, e) in
      omega (arith, length-dropped p s, ap length rest, length-dropped not_p (d ∷ r), ap length e')

  loop_step :
      (fuel : ℕ) (str : Text) (last : ℕ) (at last' at' : Option ℕ) (tokens : List Text)
      → find_first_not_of str delimiters at ≡ last'
      → find_first_of str delimiters last' ≡ at'
      → tokenize_loop (suc fuel) str delimiters (some last) at tokens
        ≡ tokenize_loop fuel str delimiters last' at' (tokens ++ substr str last at ∷ [])
  unfolding tokenize_loop
  loop_step fuel str last at last' at' tokens e e' = rw (e, e') refl

  -- The loop from a position where a word begins.
  loop_lem :
      (fuel : ℕ) (str : Text) (last c : ℕ) (s : Text) (tokens : List Text)
      → drop last str ≡ c ∷ s
      → p c ≡ false
      → length s + 1 < fuel
      → tokenize_loop fuel str delimiters
          (some last)
          (find_first_of str delimiters (some last))
          tokens
        ≡ some (tokens ++ words p (c ∷ s))
  loop_lem zero str last c s tokens e word enough = absurd (omega arith)
  loop_lem (suc fuel) str last c s tokens e word enough = elim (search p str (c ∷ s) last e) [
    | missing f drops befores ↦
        let first = first_of str (c ∷ s) last e ∙ f in
        let cut : words p (c ∷ s) ≡ (c ∷ s) ∷ [] =
          words-before p c s word ∙ cc (befores, drops, words-nil p) in
        ap (λ a. tokenize_loop (suc fuel) str delimiters (some last) a tokens) first
        ∙ loop_step fuel str last none none none tokens (not_of_npos str) (of_npos str)
        ∙ no_words fuel str _ (omega arith)
        ∙ ap (λ w. some (tokens ++ w ∷ [])) (substr_rest str (c ∷ s) last e)
        ∙ ap (λ ws. some (tokens ++ ws)) (sym cut)
    | found j d r f le at h drops takes ↦
        let first = first_of str (c ∷ s) last e ∙ f in
        let token = substr_lem str (c ∷ s) last j e ∙ takes in
        let cut : words p (c ∷ s) ≡ before p (c ∷ s) ∷ words p (d ∷ r) =
          words-before p c s word ∙ ap (λ t. before p (c ∷ s) ∷ words p t) drops in
        elim (search not_p str (d ∷ r) j at) [
          | missing f' drops' befores' ↦
              let rest : words p (d ∷ r) ≡ [] =
                words-dropped p (d ∷ r) ∙ ap (words p) drops' ∙ words-nil p in
              ap (λ a. tokenize_loop (suc fuel) str delimiters (some last) a tokens) first
              ∙ loop_step fuel str last (some j) none none tokens
                  (first_not_of str (d ∷ r) j at ∙ f') (of_npos str)
              ∙ no_words fuel str _ (omega arith)
              ∙ ap (λ w. some (tokens ++ w ∷ [])) token
              ∙ ap (λ ws. some (tokens ++ before p (c ∷ s) ∷ ws)) (sym rest)
              ∙ ap (λ ws. some (tokens ++ ws)) (sym cut)
          | found j' d' r' f' le' at' h' drops' takes' ↦
              let rest : words p (d ∷ r) ≡ words p (d' ∷ r') =
                words-dropped p (d ∷ r) ∙ ap (words p) drops' in
              ap (λ a. tokenize_loop (suc fuel) str delimiters (some last) a tokens) first
              ∙ loop_step fuel str last (some j) (some j') (find_first_of str delimiters (some j'))
                  tokens (first_not_of str (d ∷ r) j at ∙ f') refl
              ∙ loop_lem fuel str j' d' r' (tokens ++ substr str last (some j) ∷ []) at'
                  (ground (arith, h')) (omega (arith, shorter c d d' s r r' word drops drops'))
              ∙ ap some (append_assoc tokens (substr str last (some j) ∷ []) (words p (d' ∷ r')))
              ∙ ap (λ w. some (tokens ++ w ∷ words p (d' ∷ r'))) token
              ∙ ap (λ ws. some (tokens ++ before p (c ∷ s) ∷ ws)) (sym rest)
              ∙ ap (λ ws. some (tokens ++ ws)) (sym cut)
        ]
  ]

  -- Fuel for each character and one more is enough: the loop ends, `substr` never throws, and the
  -- tokens that are added are the words of the text, the longest runs without a delimiter, in order.
  pub tokenize_string-words :
      (str : Text) (tokens : List Text)
      → tokenize_string (suc (length str)) str tokens delimiters ≡ some (tokens ++ words p str)
  unfolding tokenize_string
  tokenize_string-words str tokens = elim (search not_p str str 0 refl) [
    | missing f drops befores ↦
        let start = first_not_of str str 0 refl ∙ f in
        let rest : words p str ≡ [] = words-dropped p str ∙ ap (words p) drops ∙ words-nil p in
        ap
          (λ a.
            tokenize_loop (suc (length str)) str delimiters a (find_first_of str delimiters a)
              tokens)
          start
        ∙ ap (λ a. tokenize_loop (suc (length str)) str delimiters none a tokens) (of_npos str)
        ∙ no_words (suc (length str)) str tokens (omega arith)
        ∙ ap some (sym (append-nil tokens))
        ∙ ap (λ ws. some (tokens ++ ws)) (sym rest)
    | found j c s f le at h drops takes ↦
        let start = first_not_of str str 0 refl ∙ f in
        let rest : words p str ≡ words p (c ∷ s) = words-dropped p str ∙ ap (words p) drops in
        ap
          (λ a.
            tokenize_loop (suc (length str)) str delimiters a (find_first_of str delimiters a)
              tokens)
          start
        ∙ loop_lem (suc (length str)) str j c s tokens at (ground (arith, h))
            (omega (arith, length-dropped not_p str, ap length drops))
        ∙ ap (λ ws. some (tokens ++ ws)) (sym rest)
  ]
