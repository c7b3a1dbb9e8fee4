-- ===== src/OrderedArray/Tests.antt =====
-- Runs of the array on a small storage, and the theorems at it.
use akari.Prelude.{ℕ, ◌≡◌, refl, [], ◌∷◌, arith, ltb, ok, fault, Pick}
use akari.OrderedArray
use akari.OrderedArray.{OrderedArray}
use akari.OrderedArray.Contents.{items, IsValid, Removed}
use akari.OrderedArray.Refines.{remove-Removed}
use akari.OrderedArray.Order.{IsWeakOrder, IsSorted, insert-IsSorted}

abbrev three : OrderedArray ℕ
three = record { array = 10 ∷ 20 ∷ 30 ∷ 0 ∷ 0 ∷ []; size = 3; max_size = 5; less_than = ltb }

abbrev full : OrderedArray ℕ
full = record { array = 10 ∷ 20 ∷ []; size = 2; max_size = 2; less_than = ltb }

three-IsValid : IsValid three
three-IsValid = omega arith

ltb-IsWeakOrder : IsWeakOrder ltb
ltb-IsWeakOrder = record { asym = λ x y h. ground arith; not_lt_trans = λ x y z h k. ground arith }

insert_runs :
    OrderedArray.insert three 25
    ≡ ok (record three { array = 10 ∷ 20 ∷ 25 ∷ 30 ∷ 0 ∷ []; size = 4 })
unfolding OrderedArray.insert OrderedArray.find_place OrderedArray.insert_at OrderedArray.shift_up
    OrderedArray.store
insert_runs = refl

-- `remove` reads one cell past the storage of a full array.
remove-full : OrderedArray.remove full 0 ≡ fault
unfolding OrderedArray.remove OrderedArray.shift_down OrderedArray.store
remove-full = refl

insert-IsSorted_example :
    (a' : OrderedArray ℕ) × (OrderedArray.insert three 25 ≡ ok a')
    × IsValid a'
    × Pick 25 (items a') (items three)
    × IsSorted ltb (items a')
insert-IsSorted_example =
    insert-IsSorted three 25 ltb-IsWeakOrder three-IsValid (omega arith)
      ((refl, (refl, tt)), ((refl, tt), (tt, tt)))

remove-Removed_example :
    (a' : OrderedArray ℕ) × (OrderedArray.remove three 1 ≡ ok a') × Removed three 1 a'
remove-Removed_example = remove-Removed three 1 three-IsValid (omega arith) (omega arith)
