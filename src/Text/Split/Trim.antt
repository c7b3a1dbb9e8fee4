-- ===== src/Text/Split/Trim.antt =====
-- The words of a string through the loops of `trim`, and `split` of any string.
use akari.Prelude.{
  ℕ, zero, suc, ◌+◌, ◌-◌, ◌≤◌, ◌<◌, ◌≡◌, ◌≢◌, refl, ap, subst, sym, ◌∙◌, inl, inr, true, false,
  List, [], ◌∷◌, ◌++◌, some, arith, take, drop, length, drop-length, take-length, take-nil,
  get_elem?, get_elem?-lt, get_elem?-drop, ◌==◌, Bool-cases, ok,
}
use akari.Text.Split.{isspace, count_while, last_index, trim, split}
use akari.Text.Split.Words.{
  words, words_from, close, Begins, words-spaces, count_while-Begins, count_while-length,
  split_from-words,
}

words_from-last :
    (word s : List ℕ) (c : ℕ) → isspace c ≡ true → words_from word (s ++ c ∷ []) ≡ words_from word s
unfolding words_from close
words_from-last word [] c e = ground (arith, e)
words_from-last word (d ∷ s) c e = elim (Bool-cases (isspace d)) [
  | inl space ↦ ground (arith, space, words_from-last [] s c e)
  | inr more ↦ ground (arith, more, words_from-last (word ++ d ∷ []) s c e)
]

take-last : (s : List ℕ) (n d : ℕ) → get_elem? s n ≡ some d → take (suc n) s ≡ take n s ++ d ∷ []
take-last [] n d e = absurd (ground (arith, e))
take-last (c ∷ s) zero d e = let same : c ≡ d = ground (arith, e) in ap (λ c. c ∷ []) same
take-last (c ∷ s) (suc n) d e = ap (◌∷◌ c) (take-last s n d e)

words-lead :
    (s : List ℕ) (n m : ℕ)
    → n ≤ count_while isspace s
    → words (take m s) ≡ words (drop n (take m s))
unfolding words_from count_while close
words-lead s zero m h = refl
words-lead s (suc n) zero h = refl
words-lead [] (suc n) (suc m) h = refl
words-lead (c ∷ s) (suc n) (suc m) h = elim (Bool-cases (isspace c)) [
  | inl space ↦
      let fits : n ≤ count_while isspace s = ground (arith, h, space) in
      ground (arith, space, words-lead s n m fits)
  | inr more ↦ absurd (ground (arith, h, more))
]

take-drop : (s : List ℕ) (a n : ℕ) → take n (drop a s) ≡ drop a (take (a + n) s)
take-drop s zero n = ap (λ k. take k s) (omega arith)
take-drop [] (suc a) n = take-nil n ∙ ap (drop (suc a)) (sym (take-nil (suc a + n)))
take-drop (c ∷ s) (suc a) n =
    take-drop s a n
    ∙ ap (λ k. drop (suc a) (take k (c ∷ s))) {x = suc (a + n)} {y = suc a + n} (omega arith)

last_index-words :
    (s : List ℕ) (end i c : ℕ)
    → i ≤ end
    → end < length s
    → get_elem? s i ≡ some c
    → isspace c ≡ false
    → (e : ℕ) × (last_index s end ≡ ok e)
      × (i ≤ e)
      × (e ≤ end)
      × (words (take (suc end) s) ≡ words (take (suc e) s))
unfolding last_index
last_index-words s zero i c l u g b =
    let at : get_elem? s 0 ≡ some c = ap (get_elem? s) {x = 0} {y = i} (omega (arith, l)) ∙ g in
    (0, ground (arith, at, b), l, omega arith, refl)
last_index-words s (suc end) i c l u g b =
    let (d, f) = get_elem?-lt s (suc end) u in
    elim (Bool-cases (isspace d)) [
      | inl space ↦
          let other : i ≢ suc end = λ p. ground (arith, b, space, g, f, ap (get_elem? s) p) in
          let (e, r, m, n, w) =
            last_index-words s end i c (omega (arith, l, other)) (omega (arith, u)) g b in
          (
            e,
            ground (arith, f, space, r),
            m,
            omega (arith, n),
            ap words (take-last s (suc end) d f)
                ∙ words_from-last [] (take (suc end) s) d space
                ∙ w,
          )
      | inr letter ↦ (suc end, ground (arith, f, letter), l, omega arith, refl)
    ]

Begins-first : (s : List ℕ) (c : ℕ) → Begins s → get_elem? s 0 ≡ some c → isspace c ≡ false
unfolding Begins
Begins-first [] c b e = absurd (ground (arith, e))
Begins-first (d ∷ s) c b e = let same : d ≡ c = ground (arith, e) in ap isspace (sym same) ∙ b

Begins-take : (s : List ℕ) (n : ℕ) → Begins s → Begins (take (suc n) s)
unfolding Begins
Begins-take [] n b = tt
Begins-take (c ∷ s) n b = b

nil-Begins : Begins []
unfolding Begins
nil-Begins = tt

-- `split` of any string ends, with the words of the string: its longest runs of bytes that are no spaces, from
-- left to right.
pub split-words : (s : List ℕ) → split s ≡ ok (words s)
unfolding split trim
split-words s =
    let start : ℕ = count_while isspace s in
    elim (Bool-cases (start == length s)) [
      | inl all ↦
          let over : drop start s ≡ [] = drop-length start s (ground (arith, all)) in
          let none_left : words s ≡ words [] = words-spaces s ∙ ap words over in
          ground
            (arith, all, split_from-words [] 0 1 nil-Begins (omega arith) (omega arith), none_left)
      | inr some_left ↦
          let inside : start < length s = ground (arith, some_left, count_while-length isspace s) in
          let (c, g) = get_elem?-lt s start inside in
          let head : get_elem? (drop start s) 0 ≡ some c =
            get_elem?-drop start s 0
            ∙ ap (get_elem? s) {x = start + 0} {y = start} (omega arith)
            ∙ g in
          let b = Begins-first (drop start s) c (count_while-Begins s) head in
          let (e, r, m, n, w) =
            last_index-words s (length s - 1) start c (omega (arith, inside))
              (omega (arith, inside)) g b in
          let base : List ℕ = take ((e - start) + 1) (drop start s) in
          let begins : Begins base =
            subst (λ k. Begins (take k (drop start s))) {x = suc (e - start)} {y = (e - start) + 1}
              (omega arith) (Begins-take (drop start s) (e - start) (count_while-Begins s)) in
          let found =
            split_from-words base 0 (suc (length base)) begins (omega arith) (omega arith) in
          let same : words base ≡ words s =
            ap words (take-drop s start ((e - start) + 1))
            ∙ sym (words-lead s start (start + ((e - start) + 1)) (omega arith))
            ∙ ap (λ k. words (take k s)) {x = start + ((e - start) + 1)} {y = suc e}
                (omega (arith, m))
            ∙ sym w
            ∙ ap (λ k. words (take k s)) {x = suc (length s - 1)} {y = length s}
                (omega (arith, inside))
            ∙ ap words (take-length s) in
          ground (arith, some_left, r) ∙ found ∙ ap ok same
    ]
