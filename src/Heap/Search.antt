-- ===== src/Heap/Search.antt =====
-- The searches of the index: they find the first entry that passes the test, or none does.
use mathlib.Core.Option.{some-injective}
use mathlib.Core.Bool.{false≢true}
use native.Mathlib.Decide.{dec_lt}
use akari.Prelude.{
  ℕ, zero, suc, ◌+◌, ◌≤◌, ◌<◌, ◌≡◌, refl, sym, ap, ◌∙◌, inl, inr, Bool, true, false, Option, none,
  some, List, arith, get_elem?, get_elem?-lt, get_elem?-bound, Bool-cases, ok, Pick, here, there,
}
use akari.OrderedArray.{OrderedArray}
use akari.OrderedArray.Contents.{items, IsValid}
use akari.OrderedArray.Access.{get-items, length-items}
use akari.Heap.{Entry, first_index}

-- What a search of `xs` from `it` on returns.
pub data Finds (test : Entry → Bool) (xs : List Entry) (it : ℕ) : Option ℕ → Type 0 where
  missing :
      ((j : ℕ) (x : Entry) → it ≤ j → get_elem? xs j ≡ some x → test x ≡ false)
      → Finds test xs it none
  found :
      (i : ℕ) (x : Entry)
      → it ≤ i
      → get_elem? xs i ≡ some x
      → test x ≡ true
      → ((j : ℕ) (y : Entry) → it ≤ j → j < i → get_elem? xs j ≡ some y → test y ≡ false)
      → Finds test xs it (some i)

-- A search that passes over the entry at `it`.
Finds-step :
    (test : Entry → Bool) (xs : List Entry) (it : ℕ) (x : Entry) (r : Option ℕ)
    → get_elem? xs it ≡ some x
    → test x ≡ false
    → Finds test xs (it + 1) r
    → Finds test xs it r
Finds-step test xs it x r e fail f = go f
  where
    at_it :
        (j : ℕ) (y : Entry)
        → it ≤ j
        → get_elem? xs j ≡ some y
        → (it < j → test y ≡ false)
        → test y ≡ false
    at_it j y h g k = elim (dec_lt it j) [
      | yes p ↦ k p
      | no p ↦ ap test (some-injective y x (sym g ∙ ap (get_elem? xs) (omega arith) ∙ e)) ∙ fail
    ]

    go : {o : Option ℕ} → Finds test xs (it + 1) o → Finds test xs it o
    go (missing h) = missing λ j y k g. at_it j y k g (λ p. h j y (omega arith) g)
    go (found i y k g t before) =
        found i y (omega arith) g t λ j z l m n. at_it j z l n (λ p. before j z (omega arith) m n)

pub first_index-Finds :
    (test : Entry → Bool) (a : OrderedArray Entry) (it rounds : ℕ)
    → IsValid a
    → it + rounds ≡ a.size
    → (r : Option ℕ) × (first_index test a it rounds ≡ ok r) × Finds test (items a) it r
unfolding first_index
first_index-Finds test a it zero v n = (
  none,
  refl,
  missing λ j x h e. absurd (omega (arith, length-items a v, get_elem?-bound (items a) j e)),
)
first_index-Finds test a it (suc rounds) v n =
    let (x, e) = get_elem?-lt (items a) it (omega (arith, length-items a v)) in
    let (r, s, f) = first_index-Finds test a (it + 1) rounds v (omega arith) in
    elim (Bool-cases (test x)) [
      | inl pass ↦ (
        some it,
        ground (arith, get-items a it e),
        found it x (omega arith) e pass (λ j y h k g. absurd (omega arith)),
      )
      | inr fail ↦ (r, ground (arith, get-items a it e), Finds-step test (items a) it x r e fail f)
    ]

-- The picks that an index makes, and an index for a pick.
pub Pick-index :
    {x : Entry} {xs rest : List Entry} → Pick x xs rest → (i : ℕ) × (get_elem? xs i ≡ some x)
Pick-index here = (0, refl)
Pick-index (there p) = let (i, e) = Pick-index p in (suc i, e)

-- If an entry passes the test, a search from the start finds one that does.
pub Finds-some :
    {test : Entry → Bool} {xs rest : List Entry} {x : Entry} {r : Option ℕ}
    → Finds test xs 0 r
    → Pick x xs rest
    → test x ≡ true
    → (i : ℕ) × (y : Entry) × (r ≡ some i) × (get_elem? xs i ≡ some y) × (test y ≡ true)
Finds-some {x = x} (missing h) p t =
    let (j, e) = Pick-index p in absurd (false≢true (sym (h j x (omega arith) e) ∙ t))
Finds-some (found i y _ e s _) p t = (i, y, refl, e, s)
