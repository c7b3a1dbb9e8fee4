-- ===== src/OrderedArray/Access.antt =====
-- Reads and writes through `operator[]`, against the list of items.
use akari.Prelude.{
  ℕ, zero, suc, ◌≤◌, ◌<◌, ◌≡◌, refl, ap, List, [], ◌∷◌, some, arith, length, get_elem?, set, take,
  length-take, length-set, ok, panic,
}
use akari.OrderedArray.{OrderedArray, get, put}
use akari.OrderedArray.Contents.{items, IsValid, Written}

module _ {ℓ} {A : Type ℓ} where
  get_elem?-take :
      (n i : ℕ) (xs : List A) {x : A}
      → get_elem? (take n xs) i ≡ some x
      → (i < n) × (get_elem? xs i ≡ some x)
  get_elem?-take zero i xs e = absurd (cc)
  get_elem?-take (suc n) i [] e = absurd (cc)
  get_elem?-take (suc n) zero (x ∷ xs) e = (omega arith, e)
  get_elem?-take (suc n) (suc i) (x ∷ xs) e =
      let r = get_elem?-take n i xs e in (omega (arith, r.0), r.1)

  take-set : (n i : ℕ) (xs : List A) (v : A) → i < n → take n (set xs i v) ≡ set (take n xs) i v
  take-set zero i xs v h = elim h [ ]
  take-set (suc n) i [] v h = refl
  take-set (suc n) zero (x ∷ xs) v h = refl
  take-set (suc n) (suc i) (x ∷ xs) v h = ap (◌∷◌ x) (take-set n i xs v (omega arith))

  pub length-items : (a : OrderedArray A) → IsValid a → length (items a) ≡ a.size
  length-items a v = omega (arith, length-take a.size a.array)

  -- A read at the index of an item returns it.
  pub get-items :
      (a : OrderedArray A) (i : ℕ) {x : A} → get_elem? (items a) i ≡ some x → get a i ≡ ok x
  unfolding get
  get-items a i e = let r = get_elem?-take a.size i a.array e in ground (arith, r.0, r.1)

  -- A read past the last item panics.
  pub get_past : (a : OrderedArray A) (i : ℕ) → a.size ≤ i → get a i ≡ panic
  unfolding get
  get_past a i h = ground arith

  -- A write at the index of an item replaces it, and changes nothing else.
  pub put-Written :
      (a : OrderedArray A) (i : ℕ) (y : A)
      → IsValid a
      → i < a.size
      → (a' : OrderedArray A) × (put a i y ≡ ok a') × Written a i y a'
  unfolding put
  put-Written a i y v h = (
    record a { array = set a.array i y },
    ground arith,
    record {
      contents = take-set a.size i a.array y h;
      valid = record {
        storage = omega (arith, length-set a.array i y);
        room = v.room;
        word = v.word;
      };
      size = refl;
      max_size = refl;
      less_than = refl;
    },
  )
