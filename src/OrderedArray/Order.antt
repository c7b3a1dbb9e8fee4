-- ===== src/OrderedArray/Order.antt =====
-- `insert` keeps the items in the order of the predicate, and `insert`, `remove` and a write through
-- `operator[]` change one item.
use akari.Prelude.{
  ℕ, zero, suc, ◌<◌, ◌≡◌, subst, inl, inr, Bool, true, false, List, [], ◌∷◌, some, get_elem?, set,
  Bool-cases, ok, Pick, here, there, All, Pick-All,
}
use mathlib.Core.Option.{some-injective}
use akari.OrderedArray
use akari.OrderedArray.{OrderedArray}
use akari.OrderedArray.Contents.{items, insert_item, remove_at, IsValid}
use akari.OrderedArray.Refines.{insert-Inserted}

module _ {ℓ} {A : Type ℓ} where
  -- A strict order up to ties: what the array needs of its predicate.
  pub record IsWeakOrder (lt : A → A → Bool) : Type ℓ where
    pub asym : (x y : A) → lt x y ≡ true → lt y x ≡ false
    pub not_lt_trans : (x y z : A) → lt x y ≡ false → lt y z ≡ false → lt x z ≡ false

  -- No item is less than one before it.
  abbrev pub IsSorted : (A → A → Bool) → List A → Type 0
  IsSorted lt [] = Unit
  IsSorted lt (x ∷ xs) = All (λ y. lt y x ≡ false) xs × IsSorted lt xs

  pub insert_item-Pick :
      (lt : A → A → Bool) (item : A) (xs : List A) → Pick item (insert_item lt item xs) xs
  unfolding insert_item
  insert_item-Pick lt item [] = here
  insert_item-Pick lt item (x ∷ xs) = elim (Bool-cases (lt x item)) [
    | inl less ↦ rw less (there (insert_item-Pick lt item xs))
    | inr more ↦ rw more here
  ]

  pub remove_at-Pick :
      (i : ℕ) (xs : List A) {x : A} → get_elem? xs i ≡ some x → Pick x xs (remove_at i xs)
  unfolding remove_at
  remove_at-Pick i [] e = absurd (cc)
  remove_at-Pick zero (y ∷ xs) {x} e = subst (λ z. Pick z (y ∷ xs) xs) (some-injective y x e) here
  remove_at-Pick (suc i) (y ∷ xs) e = there (remove_at-Pick i xs e)

  -- A write changes the item at its index, and no other.
  pub set-Pick :
      (i : ℕ) (xs : List A) {x : A} (y : A)
      → get_elem? xs i ≡ some x
      → Pick y (set xs i y) (remove_at i xs)
  unfolding remove_at
  set-Pick i [] y e = absurd (cc)
  set-Pick zero (z ∷ xs) y e = here
  set-Pick (suc i) (z ∷ xs) y e = there (set-Pick i xs y e)

  All-insert_item :
      (P : A → Type 0) (lt : A → A → Bool) (item : A) (xs : List A)
      → P item
      → All P xs
      → All P (insert_item lt item xs)
  All-insert_item P lt item xs p h = Pick-All P (insert_item-Pick lt item xs) p h

  All-not_lt :
      (lt : A → A → Bool)
      → IsWeakOrder lt
      → (x y : A) (xs : List A) → lt y x ≡ false
      → All (λ z. lt z y ≡ false) xs
      → All (λ z. lt z x ≡ false) xs
  All-not_lt lt w x y [] e h = tt
  All-not_lt lt w x y (z ∷ xs) e h = (w.not_lt_trans z y x h.0 e, All-not_lt lt w x y xs e h.1)

  insert_item-IsSorted :
      (lt : A → A → Bool)
      → IsWeakOrder lt
      → (item : A) (xs : List A) → IsSorted lt xs
      → IsSorted lt (insert_item lt item xs)
  unfolding insert_item
  insert_item-IsSorted lt w item [] s = (tt, tt)
  insert_item-IsSorted lt w item (x ∷ xs) s = elim (Bool-cases (lt x item)) [
    | inl less ↦ rw less (
      All-insert_item (λ y. lt y x ≡ false) lt item xs (w.asym x item less) s.0,
      insert_item-IsSorted lt w item xs s.1,
    )
    | inr more ↦ rw more ((more, All-not_lt lt w item x xs more s.0), s)
  ]

  -- If the predicate is a weak order, the array valid and sorted, and there is room, `insert` succeeds,
  -- adds just the item, and leaves the array valid and sorted.
  pub insert-IsSorted :
      (a : OrderedArray A) (item : A)
      → IsWeakOrder a.less_than
      → IsValid a
      → a.size < a.max_size
      → IsSorted a.less_than (items a)
      → (a' : OrderedArray A) × (OrderedArray.insert a item ≡ ok a')
        × IsValid a'
        × Pick item (items a') (items a)
        × IsSorted a.less_than (items a')
  insert-IsSorted a item w v room s =
      let (a', e, r) = insert-Inserted a item v room in
      (
        a',
        e,
        r.valid,
        rw r.contents (insert_item-Pick a.less_than item (items a)),
        rw r.contents (insert_item-IsSorted a.less_than w item (items a) s),
      )
