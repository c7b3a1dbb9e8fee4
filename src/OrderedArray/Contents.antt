-- ===== src/OrderedArray/Contents.antt =====
-- The array seen as the list of its items, and what `insert` and `remove` do to that list.
use akari.Prelude.{
  ℕ, zero, suc, ◌+◌, ◌≤◌, ◌<◌, ◌≡◌, Bool, List, [], ◌∷◌, length, set, take, if◌then◌else◌, u32_mod,
}
use akari.OrderedArray.{OrderedArray}

module _ {ℓ} {A : Type ℓ} where
  -- The first `_size` cells.
  abbrev pub items : OrderedArray A → List A
  items a = take a.size a.array

  -- What `insert` does to the items: the new one goes before the first that is not less.
  unfoldable pub insert_item : (A → A → Bool) → A → List A → List A
  insert_item less_than item [] = item ∷ []
  insert_item less_than item (x ∷ xs) =
      if less_than x item then x ∷ insert_item less_than item xs else item ∷ x ∷ xs

  unfoldable pub remove_at : ℕ → List A → List A
  remove_at i [] = []
  remove_at zero (x ∷ xs) = xs
  remove_at (suc i) (x ∷ xs) = x ∷ remove_at i xs

  -- The storage has `_maxSize` cells, of which the first `_size` hold items.
  pub record IsValid (a : OrderedArray A) : Type 0 where
    pub storage : length a.array ≡ a.max_size
    pub room : a.size ≤ a.max_size
    pub word : a.max_size < u32_mod

  -- What `insert` leaves: the items in their new order, and a valid array.
  pub record Inserted (a : OrderedArray A) (item : A) (a' : OrderedArray A) : Type ℓ where
    pub contents : items a' ≡ insert_item a.less_than item (items a)
    pub valid : IsValid a'
    pub size : a'.size ≡ a.size + 1
    pub max_size : a'.max_size ≡ a.max_size
    pub less_than : a'.less_than ≡ a.less_than

  pub record Removed (a : OrderedArray A) (index : ℕ) (a' : OrderedArray A) : Type ℓ where
    pub contents : items a' ≡ remove_at index (items a)
    pub valid : IsValid a'
    pub size : a'.size + 1 ≡ a.size
    pub max_size : a'.max_size ≡ a.max_size
    pub less_than : a'.less_than ≡ a.less_than

  pub record Written (a : OrderedArray A) (index : ℕ) (item : A) (a' : OrderedArray A)
      : Type ℓ where
    pub contents : items a' ≡ set (items a) index item
    pub valid : IsValid a'
    pub size : a'.size ≡ a.size
    pub max_size : a'.max_size ≡ a.max_size
    pub less_than : a'.less_than ≡ a.less_than
