-- ===== src/Prelude/Ranges.antt =====
-- Parts of a list at an index: their reading, and their overwriting, as `memcpy` does it.
use Prim.Native.Nat.{ℕ, zero, suc, ◌+◌, ◌-◌, ◌≤◌, ◌<◌}
use mathlib.Core.Path.{◌≡◌, refl, ap, sym, ◌∙◌}
use mathlib.Core.List.{List, [], ◌∷◌, ◌++◌}
use native.Mathlib.Omega.{arith}
use akari.Prelude.Lists.{length, take, drop, drop-length, get_elem?}
use akari.Prelude.Slices.{take-nil}

module _ {ℓ} {A : Type ℓ} where
  -- `n` elements from index `i`
  abbrev pub slice : List A → ℕ → ℕ → List A
  slice xs i n = take n (drop i xs)

  -- The elements from index `i` replaced by `ys`; what goes past the end is dropped.
  unfoldable pub overwrite : List A → ℕ → List A → List A
  overwrite [] i ys = []
  overwrite (x ∷ xs) zero [] = x ∷ xs
  overwrite (x ∷ xs) zero (y ∷ ys) = y ∷ overwrite xs zero ys
  overwrite (x ∷ xs) (suc i) ys = x ∷ overwrite xs i ys

  -- Where a part of no elements begins does not matter.
  pub slice-at : (xs : List A) {i j : ℕ} (n : ℕ) → (0 < n → i ≡ j) → slice xs i n ≡ slice xs j n
  slice-at xs zero h = refl
  slice-at xs (suc n) h = ap (λ k. slice xs k (suc n)) (h (omega arith))

  pub take-append_take : (m n : ℕ) (xs : List A) → take m xs ++ take n (drop m xs) ≡ take (m + n) xs
  take-append_take zero n xs = ap (λ k. take k xs) {x = n} {y = 0 + n} (omega arith)
  take-append_take (suc m) n [] = take-nil n ∙ sym (take-nil (suc m + n))
  take-append_take (suc m) n (x ∷ xs) =
      ap (◌∷◌ x) (take-append_take m n xs)
      ∙ ap (λ k. take k (x ∷ xs)) {x = suc (m + n)} {y = suc m + n} (omega arith)

  pub drop-drop : (m n : ℕ) (xs : List A) → drop m (drop n xs) ≡ drop (n + m) xs
  drop-drop m zero xs = ap (λ k. drop k xs) {x = m} {y = 0 + m} (omega arith)
  drop-drop m (suc n) [] =
      drop-length m [] (omega arith) ∙ sym (drop-length (suc n + m) [] (omega arith))
  drop-drop m (suc n) (x ∷ xs) =
      drop-drop m n xs ∙ ap (λ k. drop k (x ∷ xs)) {x = suc (n + m)} {y = suc n + m} (omega arith)

  drop-take :
      (j m n : ℕ) (xs : List A) → j + n ≤ m → take n (drop j (take m xs)) ≡ take n (drop j xs)
  drop-take zero zero zero xs h = refl
  drop-take zero zero (suc n) xs h = absurd (omega (arith, h))
  drop-take zero (suc m) zero xs h = refl
  drop-take zero (suc m) (suc n) [] h = refl
  drop-take zero (suc m) (suc n) (x ∷ xs) h = ap (◌∷◌ x) (drop-take zero m n xs (omega (arith, h)))
  drop-take (suc j) zero n xs h = absurd (omega (arith, h))
  drop-take (suc j) (suc m) n [] h = refl
  drop-take (suc j) (suc m) n (x ∷ xs) h = drop-take j m n xs (omega (arith, h))

  -- Two parts, one after the other.
  pub slice-append :
      (xs : List A) (i m n : ℕ) → slice xs i m ++ slice xs (i + m) n ≡ slice xs i (m + n)
  slice-append xs i m n =
      ap (λ ys. slice xs i m ++ take n ys) (sym (drop-drop m i xs))
      ∙ take-append_take m n (drop i xs)

  -- A part of a part.
  pub slice-slice :
      (xs : List A) (i m j n : ℕ) → j + n ≤ m → slice (slice xs i m) j n ≡ slice xs (i + j) n
  slice-slice xs i m j n h = drop-take j m n (drop i xs) h ∙ ap (take n) (drop-drop j i xs)

  pub length-overwrite :
      (xs : List A) (i : ℕ) (ys : List A) → length (overwrite xs i ys) ≡ length xs
  unfolding overwrite
  length-overwrite [] i ys = refl
  length-overwrite (x ∷ xs) zero [] = refl
  length-overwrite (x ∷ xs) zero (y ∷ ys) = ap suc (length-overwrite xs zero ys)
  length-overwrite (x ∷ xs) (suc i) ys = ap suc (length-overwrite xs i ys)

  pub overwrite-nothing : (xs : List A) (i : ℕ) → overwrite xs i [] ≡ xs
  unfolding overwrite
  overwrite-nothing [] i = refl
  overwrite-nothing (x ∷ xs) zero = refl
  overwrite-nothing (x ∷ xs) (suc i) = ap (◌∷◌ x) (overwrite-nothing xs i)

  -- Two parts that follow each other, written one after the other.
  pub overwrite-append :
      (xs : List A) (i : ℕ) (ys zs : List A)
      → overwrite (overwrite xs i ys) (i + length ys) zs ≡ overwrite xs i (ys ++ zs)
  unfolding overwrite
  overwrite-append [] i ys zs = refl
  overwrite-append (x ∷ xs) zero [] zs = refl
  overwrite-append (x ∷ xs) zero (y ∷ ys) zs =
      ap (λ k. overwrite (y ∷ overwrite xs zero ys) k zs) {x = 0 + suc (length ys)}
        {y = suc (length ys)} (omega arith)
      ∙ ap (◌∷◌ y) (
          ap (λ k. overwrite (overwrite xs zero ys) k zs) {x = length ys} {y = 0 + length ys}
            (omega arith)
          ∙ overwrite-append xs zero ys zs)
  overwrite-append (x ∷ xs) (suc i) ys zs =
      ap (λ k. overwrite (x ∷ overwrite xs i ys) k zs) {x = suc i + length ys}
        {y = suc (i + length ys)} (omega arith)
      ∙ ap (◌∷◌ x) (overwrite-append xs i ys zs)

  overwrite-take : (xs : List A) (m : ℕ) → overwrite xs zero (take m xs) ≡ xs
  unfolding overwrite
  overwrite-take [] m = refl
  overwrite-take (x ∷ xs) zero = refl
  overwrite-take (x ∷ xs) (suc m) = ap (◌∷◌ x) (overwrite-take xs m)

  overwrite_within :
      (xs : List A) (m j : ℕ) (ys : List A)
      → j + length ys ≤ m
      → overwrite xs zero (overwrite (take m xs) j ys) ≡ overwrite xs j ys
  unfolding overwrite
  overwrite_within [] m j ys h = refl
  overwrite_within (x ∷ xs) zero zero [] h = refl
  overwrite_within (x ∷ xs) zero zero (y ∷ ys) h = absurd (omega (arith, h))
  overwrite_within (x ∷ xs) zero (suc j) ys h = absurd (omega (arith, h))
  overwrite_within (x ∷ xs) (suc m) zero [] h = ap (◌∷◌ x) (overwrite-take xs m)
  overwrite_within (x ∷ xs) (suc m) zero (y ∷ ys) h =
      ap (◌∷◌ y) (overwrite_within xs m zero ys (omega (arith, h)))
  overwrite_within (x ∷ xs) (suc m) (suc j) ys h =
      ap (◌∷◌ x) (overwrite_within xs m j ys (omega (arith, h)))

  -- A part read, changed within, and written back.
  pub overwrite-overwrite-slice :
      (xs : List A) (i m j : ℕ) (ys : List A)
      → j + length ys ≤ m
      → overwrite xs i (overwrite (slice xs i m) j ys) ≡ overwrite xs (i + j) ys
  unfolding overwrite
  overwrite-overwrite-slice [] i m j ys h = refl
  overwrite-overwrite-slice (x ∷ xs) zero m j ys h =
      overwrite_within (x ∷ xs) m j ys h
      ∙ ap (λ k. overwrite (x ∷ xs) k ys) {x = j} {y = 0 + j} (omega arith)
  overwrite-overwrite-slice (x ∷ xs) (suc i) m j ys h =
      ap (◌∷◌ x) (overwrite-overwrite-slice xs i m j ys h)
      ∙ ap (λ k. overwrite (x ∷ xs) k ys) {x = suc (i + j)} {y = suc i + j} (omega arith)

  -- What was written is read.
  pub slice-overwrite :
      (xs : List A) (i : ℕ) (ys : List A)
      → i + length ys ≤ length xs
      → slice (overwrite xs i ys) i (length ys) ≡ ys
  unfolding overwrite
  slice-overwrite [] zero [] h = refl
  slice-overwrite [] (suc i) [] h = refl
  slice-overwrite [] zero (y ∷ ys) h = absurd (omega (arith, h))
  slice-overwrite [] (suc i) (y ∷ ys) h = absurd (omega (arith, h))
  slice-overwrite (x ∷ xs) zero [] h = refl
  slice-overwrite (x ∷ xs) zero (y ∷ ys) h =
      ap (◌∷◌ y) (slice-overwrite xs zero ys (omega (arith, h)))
  slice-overwrite (x ∷ xs) (suc i) ys h = slice-overwrite xs i ys (omega (arith, h))

  pub get_elem?-append_lt :
      (xs ys : List A) (i : ℕ) → i < length xs → get_elem? (xs ++ ys) i ≡ get_elem? xs i
  get_elem?-append_lt [] ys i h = absurd (omega (arith, h))
  get_elem?-append_lt (x ∷ xs) ys zero h = refl
  get_elem?-append_lt (x ∷ xs) ys (suc i) h = get_elem?-append_lt xs ys i (omega (arith, h))

  pub get_elem?-append_ge :
      (xs ys : List A) (i : ℕ)
      → length xs ≤ i
      → get_elem? (xs ++ ys) i ≡ get_elem? ys (i - length xs)
  get_elem?-append_ge [] ys i h = ap (get_elem? ys) {x = i} {y = i - 0} (omega arith)
  get_elem?-append_ge (x ∷ xs) ys zero h = absurd (omega (arith, h))
  get_elem?-append_ge (x ∷ xs) ys (suc i) h =
      get_elem?-append_ge xs ys i (omega (arith, h)) ∙ ap (get_elem? ys) (omega arith)

  -- The elements of an overwritten part, and the others.
  pub get_elem?-overwrite :
      (xs : List A) (i : ℕ) (ys : List A) (j : ℕ)
      → j < length ys
      → i + length ys ≤ length xs
      → get_elem? (overwrite xs i ys) (i + j) ≡ get_elem? ys j
  unfolding overwrite
  get_elem?-overwrite [] i ys j u h = absurd (omega (arith, u, h))
  get_elem?-overwrite (x ∷ xs) zero [] j u h = absurd (omega (arith, u))
  get_elem?-overwrite (x ∷ xs) zero (y ∷ ys) zero u h = refl
  get_elem?-overwrite (x ∷ xs) zero (y ∷ ys) (suc j) u h =
      ap (get_elem? (y ∷ overwrite xs zero ys)) {x = 0 + suc j} {y = suc j} (omega arith)
      ∙ ap (get_elem? (overwrite xs zero ys)) {x = j} {y = 0 + j} (omega arith)
      ∙ get_elem?-overwrite xs zero ys j (omega (arith, u)) (omega (arith, h))
  get_elem?-overwrite (x ∷ xs) (suc i) ys j u h =
      ap (get_elem? (x ∷ overwrite xs i ys)) {x = suc i + j} {y = suc (i + j)} (omega arith)
      ∙ get_elem?-overwrite xs i ys j u (omega (arith, h))
