-- ===== src/OrderedArray/Refines.antt =====
-- `insert` and `remove` on the cells implement the list functions of Contents.
use mathlib.Core.List.{append_assoc}
use mathlib.Core.Path.{ap₂}
use akari.Prelude.{
  ℕ, zero, suc, ◌+◌, ◌-◌, ◌≤◌, ◌<◌, ◌≡◌, refl, sym, ap, ◌∙◌, subst, List, [], ◌∷◌, ◌++◌, arith,
  length, take, length-append, length-take, take-append-drop, take-append, add32, sub32, ok, panic,
}
use akari.OrderedArray.{OrderedArray, insert, remove}
use akari.OrderedArray.Contents.{remove_at, IsValid, Inserted, Removed}
use akari.OrderedArray.Loops.{
  place, place_split, find_place-place, insert_at-append, shift_down-append, drop-cons,
}

module _ {ℓ} {A : Type ℓ} where
  insert_split :
      (a : OrderedArray A) (item : A) (us vs post : List A) (last : A)
      → a.array ≡ us ++ (vs ++ last ∷ post)
      → a.size ≡ length us + length vs
      → place a.less_than item (us ++ vs) ≡ length us
      → a.size < a.max_size
      → insert a item ≡ ok (record a { array = us ++ item ∷ (vs ++ post); size = add32 a.size 1 })
  unfolding insert
  insert_split a item us vs post last e n p h = ground (
    arith,
    append_assoc us vs (last ∷ post),
    length-append us vs,
    find_place-place a.less_than item [] (us ++ vs) (last ∷ post) 0 refl,
    insert_at-append a item us vs post last e n,
  )

  -- On a valid array with room, `insert` puts the item before the first that is not less, keeps the
  -- rest in their order, and leaves a valid array.
  pub insert-Inserted :
      (a : OrderedArray A) (item : A)
      → IsValid a
      → a.size < a.max_size
      → (a' : OrderedArray A) × (insert a item ≡ ok a') × Inserted a item a'
  insert-Inserted a item v h =
      let (last, post, d) = drop-cons a.size a.array (omega arith) in
      let (us, vs, xs, p, i) = place_split a.less_than item (take a.size a.array) in
      let n : a.size ≡ length us + length vs =
        omega (arith, length-take a.size a.array, ap length xs, length-append us vs) in
      let e : a.array ≡ us ++ (vs ++ last ∷ post) =
        sym (take-append-drop a.size a.array) ∙ ap₂ ◌++◌ xs d ∙ append_assoc us vs (last ∷ post) in
      let c : us ++ item ∷ (vs ++ post) ≡ (us ++ item ∷ vs) ++ post =
        sym (append_assoc us (item ∷ vs) post) in
      (
        record a { array = us ++ item ∷ (vs ++ post); size = add32 a.size 1 },
        insert_split a item us vs post last e n
            (subst (λ z. place a.less_than item z ≡ length us) xs p) h,
        record {
          contents =
              ap (take (add32 a.size 1)) c
              ∙ take-append (add32 a.size 1) (us ++ item ∷ vs) post
                  (omega (arith, length-append us (item ∷ vs)))
              ∙ sym i;
          valid = record {
            storage = omega (
              arith,
              ap length e,
              length-append us (vs ++ last ∷ post),
              length-append vs (last ∷ post),
              length-append us (item ∷ (vs ++ post)),
              length-append vs post,
            );
            room = omega arith;
            word = v.word;
          };
          size = omega arith;
          max_size = refl;
          less_than = refl;
        },
      )

  -- On a full array it panics.
  pub insert_full : (a : OrderedArray A) (item : A) → a.max_size ≤ a.size → insert a item ≡ panic
  unfolding insert
  insert_full a item h = ground arith

  split_at :
      (i : ℕ) (xs : List A)
      → i < length xs
      → (us : List A) × (x : A) × (vs : List A) × (xs ≡ us ++ x ∷ vs)
        × (i ≡ length us)
        × (remove_at i xs ≡ us ++ vs)
  unfolding remove_at
  split_at i [] h = elim h [ ]
  split_at zero (x ∷ xs) h = ([], x, xs, refl, refl, refl)
  split_at (suc i) (x ∷ xs) h =
      let (us, y, vs, e, n, r) = split_at i xs (omega arith) in
      (x ∷ us, y, vs, ap (◌∷◌ x) e, omega arith, ap (◌∷◌ x) r)

  remove_split :
      (a : OrderedArray A) (index : ℕ) (us vs post : List A) (first last : A)
      → a.array ≡ us ++ first ∷ (vs ++ last ∷ post)
      → index ≡ length us
      → a.size ≡ length us + suc (length vs)
      → remove a index
        ≡ ok (record a { array = us ++ (vs ++ last ∷ last ∷ post); size = sub32 a.size 1 })
  unfolding remove
  remove_split a index us vs post first last e i n =
      let rounds : a.size - index ≡ suc (length vs) = omega arith in
      ground (arith, shift_down-append us vs post first last index i)

  -- On a valid array with a cell to spare, `remove` takes out the item at `index`, keeps the others in
  -- their order, and leaves a valid array.
  pub remove-Removed :
      (a : OrderedArray A) (index : ℕ)
      → IsValid a
      → index < a.size
      → a.size < a.max_size
      → (a' : OrderedArray A) × (remove a index ≡ ok a') × Removed a index a'
  remove-Removed a index v h room =
      let (last, post, d) = drop-cons a.size a.array (omega arith) in
      let (us, x, vs, xs, i, r) =
        split_at index (take a.size a.array) (omega (arith, length-take a.size a.array)) in
      let n : a.size ≡ length us + suc (length vs) =
        omega (arith, length-take a.size a.array, ap length xs, length-append us (x ∷ vs)) in
      let e : a.array ≡ us ++ x ∷ (vs ++ last ∷ post) =
        sym (take-append-drop a.size a.array)
        ∙ ap₂ ◌++◌ xs d
        ∙ append_assoc us (x ∷ vs) (last ∷ post) in
      (
        record a { array = us ++ (vs ++ last ∷ last ∷ post); size = sub32 a.size 1 },
        remove_split a index us vs post x last e i n,
        record {
          contents =
              ap (take (sub32 a.size 1)) (sym (append_assoc us vs (last ∷ last ∷ post)))
              ∙ take-append (sub32 a.size 1) (us ++ vs) (last ∷ last ∷ post)
                  (omega (arith, length-append us vs))
              ∙ sym r;
          valid = record {
            storage = omega (
              arith,
              ap length e,
              length-append us (x ∷ (vs ++ last ∷ post)),
              length-append vs (last ∷ post),
              length-append us (vs ++ last ∷ last ∷ post),
              length-append vs (last ∷ last ∷ post),
            );
            room = omega arith;
            word = v.word;
          };
          size = omega arith;
          max_size = refl;
          less_than = refl;
        },
      )
