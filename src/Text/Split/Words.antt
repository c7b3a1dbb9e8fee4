-- ===== src/Text/Split/Words.antt =====
-- The words of a string, as an independent description, and the loop of `split`.
use akari.Prelude.{
  ℕ, zero, suc, ◌+◌, ◌-◌, ◌≤◌, ◌<◌, ◌≡◌, refl, ap, subst, sym, ◌∙◌, inl, inr, Bool, false, List, [],
  ◌∷◌, ◌++◌, arith, take, drop, length, length-drop, drop-length, append-nil, append_assoc, ltb,
  ltb→lt, if◌then◌else◌, Bool-cases, ok,
}
use akari.Text.Split.{isspace, letter, substr, count_while, split_from}

-- A word that ends.
unfoldable pub close : List ℕ → List (List ℕ) → List (List ℕ)
close [] words = words
close (c ∷ word) words = (c ∷ word) ∷ words

-- The words of a string, from left to right, with the bytes of the word so far.
unfoldable pub words_from : List ℕ → List ℕ → List (List ℕ)
words_from word [] = close word []
words_from word (c ∷ s) =
    if isspace c then close word (words_from [] s) else words_from (word ++ c ∷ []) s

abbrev pub words : List ℕ → List (List ℕ)
words s = words_from [] s

words_from-open :
    (a : ℕ) (word s : List ℕ)
    → words_from (a ∷ word) s
      ≡ ((a ∷ word) ++ take (count_while letter s) s) ∷ words (drop (count_while letter s) s)
unfolding words_from count_while close
words_from-open a word [] = ap (λ l. (a ∷ l) ∷ []) (sym (append-nil word))
words_from-open a word (c ∷ s) = elim (Bool-cases (isspace c)) [
  | inl space ↦ ground (arith, space, append-nil word)
  | inr more ↦
      let rest = words_from-open a (word ++ c ∷ []) s in
      let joined = append_assoc (a ∷ word) (c ∷ []) (take (count_while letter s) s) in
      ground (arith, more, rest, joined)
]

pub words-spaces : (s : List ℕ) → words s ≡ words (drop (count_while isspace s) s)
unfolding words_from count_while close
words-spaces [] = refl
words-spaces (c ∷ s) = elim (Bool-cases (isspace c)) [
  | inl space ↦ ground (arith, space, words-spaces s)
  | inr more ↦ ground (arith, more)
]

-- A string that begins with no space.
unfoldable pub Begins : List ℕ → Type 0
Begins [] = Unit {0}
Begins (c ∷ s) = isspace c ≡ false

pub count_while-Begins : (s : List ℕ) → Begins (drop (count_while isspace s) s)
unfolding count_while Begins
count_while-Begins [] = tt
count_while-Begins (c ∷ s) = elim (Bool-cases (isspace c)) [
  | inl space ↦
      let skip : drop (count_while isspace s) s ≡ drop (count_while isspace (c ∷ s)) (c ∷ s) =
        ground (arith, space) in
      subst Begins skip (count_while-Begins s)
  | inr more ↦
      let stay : c ∷ s ≡ drop (count_while isspace (c ∷ s)) (c ∷ s) = ground (arith, more) in
      subst Begins stay more
]

drop-drop : (m n : ℕ) (xs : List ℕ) → drop n (drop m xs) ≡ drop (m + n) xs
drop-drop zero n xs = ap (λ k. drop k xs) (omega arith)
drop-drop (suc m) n [] =
    drop-length n [] (omega arith) ∙ sym (drop-length (suc m + n) [] (omega arith))
drop-drop (suc m) n (x ∷ xs) =
    drop-drop m n xs ∙ ap (λ k. drop k (x ∷ xs)) {x = suc (m + n)} {y = suc m + n} (omega arith)

pub count_while-length : (test : ℕ → Bool) (s : List ℕ) → count_while test s ≤ length s
unfolding count_while
count_while-length test [] = omega arith
count_while-length test (c ∷ s) = ground (arith, count_while-length test s)

substr-take :
    (base : List ℕ) (offset n : ℕ)
    → offset ≤ length base
    → n ≤ length (drop offset base)
    → substr base offset n ≡ take n (drop offset base)
unfolding substr
substr-take base offset n u v = ground (arith, u, v, length-drop offset base)

-- A string that begins with a letter: its first word, and the rest after the spaces.
words-first :
    (s : List ℕ)
    → Begins s
    → 0 < length s
    → (0 < count_while letter s)
      × (words s
          ≡ take (count_while letter s) s
            ∷ words (
                drop
                  (count_while isspace (drop (count_while letter s) s))
                  (drop (count_while letter s) s)))
unfolding words_from count_while Begins
words-first [] b u = absurd (omega (arith, u))
words-first (c ∷ s) b u =
    let first = words_from-open c [] s in
    let skip = words-spaces (drop (count_while letter s) s) in
    (ground (arith, b), ground (arith, b, first, skip))

pub words-nil : words [] ≡ []
unfolding words_from close
words-nil = refl

-- A round of the loop.
split_from-next :
    (base : List ℕ) (offset k j rounds : ℕ) (first : List ℕ) (rest : List (List ℕ))
    → count_while letter (drop offset base) ≡ k
    → count_while isspace (drop (offset + k) base) ≡ j
    → offset < length base
    → substr base offset k ≡ first
    → split_from base (offset + (k + j)) rounds ≡ ok rest
    → split_from base offset (suc rounds) ≡ ok (first ∷ rest)
unfolding split_from
split_from-next base offset k j rounds first rest e f u w r =
    let j' : count_while isspace (drop (offset + count_while letter (drop offset base)) base) ≡ j =
      ap (λ k. count_while isspace (drop (offset + k) base)) e ∙ f in
    let at : offset
          + (count_while letter (drop offset base)
              + count_while isspace (drop (offset + count_while letter (drop offset base)) base))
        ≡ offset + (k + j) =
      ap
        (λ k.
          offset
          + (k + count_while isspace (drop (offset + count_while letter (drop offset base)) base)))
        e
      ∙ ap (λ j. offset + (k + j)) j' in
    let word : substr base offset (count_while letter (drop offset base)) ≡ first =
      ap (substr base offset) e ∙ w in
    let again = ap (λ o. split_from base o rounds) at ∙ r in ground (arith, u, word, again)

split_from-end :
    (base : List ℕ) (offset rounds : ℕ)
    → ltb offset (length base) ≡ false
    → split_from base offset (suc rounds) ≡ ok []
unfolding split_from
split_from-end base offset rounds e = ground (arith, e)

pub split_from-words :
    (base : List ℕ) (offset rounds : ℕ)
    → Begins (drop offset base)
    → length base < offset + rounds
    → offset ≤ length base
    → split_from base offset rounds ≡ ok (words (drop offset base))
split_from-words base offset zero b u v = absurd (omega (arith, u, v))
split_from-words base offset (suc rounds) b u v = elim (Bool-cases (ltb offset (length base))) [
  | inr end ↦
      let nothing : drop offset base ≡ [] = drop-length offset base (ground (arith, end)) in
      split_from-end base offset rounds end ∙ ap ok (sym words-nil ∙ ap words (sym nothing))
  | inl more ↦
      let rest = drop offset base in
      let k : ℕ = count_while letter rest in
      let size : length rest ≡ length base - offset = length-drop offset base in
      let inside : offset < length base = ltb→lt offset (length base) more in
      let (pos, first) = words-first rest b (omega (arith, inside, size)) in
      let j : ℕ = count_while isspace (drop k rest) in
      let same_j : count_while isspace (drop (offset + k) base) ≡ j =
        ap (count_while isspace) (sym (drop-drop offset k base)) in
      let k_fits : k ≤ length rest = count_while-length letter rest in
      let j_fits : j ≤ length (drop k rest) = count_while-length isspace (drop k rest) in
      let left : length (drop k rest) ≡ length rest - k = length-drop k rest in
      let after : drop j (drop k rest) ≡ drop (offset + (k + j)) base =
        ap (drop j) (drop-drop offset k base)
        ∙ drop-drop (offset + k) j base
        ∙ ap (λ n. drop n base) {x = (offset + k) + j} {y = offset + (k + j)} (omega arith) in
      let ih : split_from base (offset + (k + j)) rounds
          ≡ ok (words (drop (offset + (k + j)) base)) =
        split_from-words base (offset + (k + j)) rounds
          (subst Begins after (count_while-Begins (drop k rest))) (omega (arith, u, pos))
          (omega (arith, size, k_fits, j_fits, left, v)) in
      split_from-next base offset k j rounds (take k rest) (words (drop (offset + (k + j)) base))
        refl same_j inside (substr-take base offset k v k_fits) ih
      ∙ ap ok (sym (first ∙ ap (λ l. take k rest ∷ words l) after))
]
