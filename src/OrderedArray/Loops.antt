-- ===== src/OrderedArray/Loops.antt =====
-- The loops of `insert` and `remove`, over storage split at the place where they work.
use mathlib.Core.List.{append-nil, append_assoc}
use akari.Prelude.{
  ℕ, zero, suc, ◌+◌, ◌≤◌, inl, inr, ◌<◌, ◌≡◌, refl, sym, ap, ◌∙◌, subst, Bool, List, [], ◌∷◌, ◌++◌,
  some, arith, length, get_elem?, drop, length-append, get_elem?-append, set-append, lt→ltb,
  if◌then◌else◌, Bool-cases, ok,
}
use akari.OrderedArray.{OrderedArray, find_place, insert_at, shift_up, shift_down, store}
use akari.OrderedArray.Contents.{insert_item}

module _ {ℓ} {A : Type ℓ} where
  unfoldable pub place : (A → A → Bool) → A → List A → ℕ
  place less_than item [] = 0
  place less_than item (x ∷ xs) = if less_than x item then place less_than item xs + 1 else 0

  place-le : (lt : A → A → Bool) (item : A) (xs : List A) → place lt item xs ≤ length xs
  unfolding place
  place-le lt item [] = omega arith
  place-le lt item (x ∷ xs) = ground (arith, place-le lt item xs)

  store-append :
      (i : ℕ) (xs ys : List A) (y v : A)
      → i ≡ length xs
      → store (xs ++ y ∷ ys) i v ≡ ok (xs ++ v ∷ ys)
  unfolding store
  store-append i xs ys y v e =
      rw (lt→ltb i (length (xs ++ y ∷ ys)) (omega (arith, length-append xs (y ∷ ys))))
        (ap ok (set-append i xs ys y v e))

  pub find_place-place :
      (lt : A → A → Bool) (item : A) (pre xs post : List A) (it : ℕ)
      → it ≡ length pre
      → find_place lt (pre ++ (xs ++ post)) item (length xs) it ≡ ok (it + place lt item xs)
  unfolding find_place place
  find_place-place lt item pre [] post it e = ap ok (omega arith)
  find_place-place lt item pre (x ∷ xs) post it e = ground (
    arith,
    get_elem?-append it pre (xs ++ post) x e,
    subst (λ c. find_place lt c item (length xs) (it + 1) ≡ ok (it + 1 + place lt item xs))
        (append_assoc pre (x ∷ []) (xs ++ post))
        (find_place-place lt item (pre ++ x ∷ []) xs post (it + 1)
          (omega (arith, length-append pre (x ∷ [])))),
  )

  shift_up-append :
      (pre xs post : List A) (last save : A) (it : ℕ)
      → it + 1 ≡ length pre
      → shift_up (pre ++ (xs ++ last ∷ post)) it save (suc (length xs))
        ≡ ok (pre ++ save ∷ (xs ++ post))
  unfolding shift_up
  shift_up-append pre [] post last save it e =
      rw (get_elem?-append (it + 1) pre post last e, store-append (it + 1) pre post last save e)
  shift_up-append pre (x ∷ xs) post last save it e =
      rw
        (
          get_elem?-append (it + 1) pre (xs ++ last ∷ post) x e,
          store-append (it + 1) pre (xs ++ last ∷ post) x save e,
        )
        (rw (sym (append_assoc pre (save ∷ []) (xs ++ last ∷ post))) (
          shift_up-append (pre ++ save ∷ []) xs post last x (it + 1)
            (omega (arith, length-append pre (save ∷ [])))
          ∙ ap ok (append_assoc pre (save ∷ []) (x ∷ (xs ++ post)))))

  get_elem?-append_next :
      (i : ℕ) (xs ys : List A) (y z : A)
      → i ≡ length xs
      → get_elem? (xs ++ y ∷ z ∷ ys) (i + 1) ≡ some z
  get_elem?-append_next i xs ys y z e =
      rw (sym (append_assoc xs (y ∷ []) (z ∷ ys)))
        (get_elem?-append (i + 1) (xs ++ y ∷ []) ys z (omega (arith, length-append xs (y ∷ []))))

  pub shift_down-append :
      (pre xs post : List A) (first last : A) (index : ℕ)
      → index ≡ length pre
      → shift_down (pre ++ first ∷ (xs ++ last ∷ post)) index (suc (length xs))
        ≡ ok (pre ++ (xs ++ last ∷ last ∷ post))
  unfolding shift_down
  shift_down-append pre [] post first last index e = rw (
    get_elem?-append_next index pre post first last e,
    store-append index pre (last ∷ post) first last e,
  )
  shift_down-append pre (x ∷ xs) post first last index e =
      rw
        (
          get_elem?-append_next index pre (xs ++ last ∷ post) first x e,
          store-append index pre (x ∷ (xs ++ last ∷ post)) first x e,
        )
        (rw (sym (append_assoc pre (x ∷ []) (x ∷ (xs ++ last ∷ post)))) (
          shift_down-append (pre ++ x ∷ []) xs post x last (index + 1)
            (omega (arith, length-append pre (x ∷ [])))
          ∙ ap ok (append_assoc pre (x ∷ []) (xs ++ last ∷ last ∷ post))))

  pub place_split :
      (lt : A → A → Bool) (item : A) (xs : List A)
      → (us : List A) × (vs : List A) × (xs ≡ us ++ vs)
        × (place lt item xs ≡ length us)
        × (insert_item lt item xs ≡ us ++ item ∷ vs)
  unfolding place insert_item
  place_split lt item [] = ([], [], refl, refl, refl)
  place_split lt item (x ∷ xs) = elim (Bool-cases (lt x item)) [
    | inl less ↦ rw less (
        let (us, vs, e, p, i) = place_split lt item xs in
        (x ∷ us, vs, ap (◌∷◌ x) e, omega arith, ap (◌∷◌ x) i))
    | inr more ↦ rw more ([], x ∷ xs, refl, refl, refl)
  ]

  pub insert_at-append :
      (a : OrderedArray A) (item : A) (us vs post : List A) (last : A)
      → a.array ≡ us ++ (vs ++ last ∷ post)
      → a.size ≡ length us + length vs
      → insert_at a item (length us) ≡ ok (us ++ item ∷ (vs ++ post))
  unfolding insert_at
  insert_at-append a item us [] post last e n =
      ground (arith, append-nil us, store-append (length us) us post last item refl)
  insert_at-append a item us (v ∷ vs) post last e n = ground (
    arith,
    get_elem?-append (length us) us (vs ++ last ∷ post) v refl,
    store-append (length us) us (vs ++ last ∷ post) v item refl,
    append_assoc us (item ∷ []) (vs ++ last ∷ post),
    append_assoc us (item ∷ []) (v ∷ (vs ++ post)),
    shift_up-append (us ++ item ∷ []) vs post last v (length us)
        (omega (arith, length-append us (item ∷ []))),
  )

  pub drop-cons :
      (n : ℕ) (xs : List A) → n < length xs → (y : A) × (ys : List A) × (drop n xs ≡ y ∷ ys)
  drop-cons n [] h = elim h [ ]
  drop-cons zero (x ∷ xs) h = (x, xs, refl)
  drop-cons (suc n) (x ∷ xs) h = drop-cons n xs (omega arith)
