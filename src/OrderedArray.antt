-- ===== src/OrderedArray.antt =====
-- inc/OrderedArray.hpp: an array of fixed capacity that `insert` keeps in the order of a predicate.
-- The array is its list of cells. Each loop recurs on the rounds that it has left.
pub mod Contents
mod Loops
pub mod Refines
pub mod Order
pub mod Access
mod Tests
use akari.Prelude.{
  ℕ, zero, suc, ◌+◌, ◌-◌, Bool, List, replicate, length, get_elem?, set, ltb, ◌==◌, if◌then◌else◌,
  add32, sub32, Result, ok, fault, ◌>>=◌, ◌>>◌, assert, or_fault,
}

pub record OrderedArray {ℓ} (A : Type ℓ) : Type ℓ where
  pub array : List A
  pub size : ℕ
  pub max_size : ℕ
  pub less_than : A → A → Bool

module _ {ℓ} {A : Type ℓ} where
  -- The constructor on storage at `address`; `zeroed` is the item that `memset` leaves in a cell. A
  -- function is never null, so `ASSERT(lessThan)` always passes.
  unfoldable pub init : ℕ → ℕ → (A → A → Bool) → A → Result (OrderedArray A)
  init address max_size less_than zeroed = do
    assert (ltb 0 address)
    assert (ltb 0 max_size)
    ok (record {
      array = replicate max_size zeroed;
      size = 0;
      max_size = max_size;
      less_than = less_than;
    })

  -- `operator[]`
  unfoldable pub get : OrderedArray A → ℕ → Result A
  get a index = do assert (ltb index a.size); or_fault (get_elem? a.array index)

  -- `_array[index] = item`, with no test but the end of the storage.
  unfoldable pub store : List A → ℕ → A → Result (List A)
  store array index item = if ltb index (length array) then ok (set array index item) else fault

  -- A write through the reference that `operator[]` returns.
  unfoldable pub put : OrderedArray A → ℕ → A → Result (OrderedArray A)
  unfolding store
  put a index item = do
    assert (ltb index a.size)
    array ← store a.array index item
    ok (record a { array = array })

  -- `while (it < _size && _lessThan(_array[it], item)) ++it;` with `_size - it` rounds left.
  unfoldable pub find_place : (A → A → Bool) → List A → A → ℕ → ℕ → Result ℕ
  find_place less_than array item zero it = ok it
  find_place less_than array item (suc rounds) it =
      let next = find_place less_than array item rounds (it + 1) in
      do x ← or_fault (get_elem? array it); if less_than x item then next else ok it

  -- The second loop of `insert`, with `_size - it` rounds left.
  unfoldable pub shift_up : List A → ℕ → A → ℕ → Result (List A)
  shift_up array it save zero = ok array
  shift_up array it save (suc rounds) = do
    swap ← or_fault (get_elem? array (it + 1))
    array' ← store array (it + 1) save
    shift_up array' (it + 1) swap rounds

  -- The two ways in which `insert` ends, at the place that was found.
  unfoldable pub insert_at : OrderedArray A → A → ℕ → Result (List A)
  unfolding store shift_up
  insert_at a item it = if it == a.size then store a.array a.size item else do
    save ← or_fault (get_elem? a.array it)
    array ← store a.array it item
    shift_up array it save (a.size - it)

  unfoldable pub insert : OrderedArray A → A → Result (OrderedArray A)
  unfolding find_place insert_at
  insert a item = do
    assert (ltb a.size a.max_size)
    it ← find_place a.less_than a.array item a.size 0
    array ← insert_at a item it
    ok (record a { array = array; size = add32 a.size 1 })

  -- `while (index < _size) { _array[index] = _array[index + 1]; ++index; }`
  unfoldable pub shift_down : List A → ℕ → ℕ → Result (List A)
  unfolding store
  shift_down array index zero = ok array
  shift_down array index (suc rounds) = do
    x ← or_fault (get_elem? array (index + 1))
    array' ← store array index x
    shift_down array' (index + 1) rounds

  unfoldable pub remove : OrderedArray A → ℕ → Result (OrderedArray A)
  unfolding shift_down
  remove a index = do
    array ← shift_down a.array index (a.size - index)
    ok (record a { array = array; size = sub32 a.size 1 })
