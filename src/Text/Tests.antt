-- ===== src/Text/Tests.antt =====
-- Two short strings, and the theorems at them.
use akari.Prelude.{ok, ℕ, ◌≡◌, refl, List, [], ◌∷◌, arith}
use akari.Text.Split.{split}
use akari.Text.Split.Words.{words, words_from, close}
use akari.Text.Split.Trim.{split-words}
use akari.Text.{strcmp, strcmpn, strpos, strpos_from}
use akari.Text.Compare.{IsText}

-- "abab", "ba" and "b", whose last byte is above 127.
abbrev abab : List ℕ
abab = 97 ∷ 98 ∷ 97 ∷ 98 ∷ []

abbrev ba : List ℕ
ba = 98 ∷ 97 ∷ []

abbrev high : List ℕ
high = 98 ∷ 200 ∷ []

abab-IsText : IsText abab
abab-IsText = (
  (omega arith, omega arith),
  ((omega arith, omega arith), ((omega arith, omega arith), ((omega arith, omega arith), tt))),
)

ba-IsText : IsText ba
ba-IsText = ((omega arith, omega arith), ((omega arith, omega arith), tt))

-- A byte above 127 is negative, and so comes before the others.
high_first : strcmp ba high ≡ 1
unfolding strcmp
high_first = refl

ba_at_1 : strpos abab ba ≡ 1
unfolding strpos strpos_from strcmpn
ba_at_1 = refl

-- Two words among spaces.
abbrev two_words : List ℕ
two_words = 32 ∷ b'l' ∷ b's' ∷ 32 ∷ 9 ∷ b'/' ∷ 10 ∷ []

split-words_example : split two_words ≡ ok (words two_words)
split-words_example = split-words two_words

has_two_words : words two_words ≡ (b'l' ∷ b's' ∷ []) ∷ (b'/' ∷ []) ∷ []
unfolding words_from close
has_two_words = refl
