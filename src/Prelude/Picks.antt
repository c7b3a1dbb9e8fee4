-- ===== src/Prelude/Picks.antt =====
-- One element of a list, and the list without it. Facts about a collection whose order does not
-- matter go through this relation.
use Prim.Native.Nat.{◌+◌}
use mathlib.Core.Path.{◌≡◌, refl, ap}
use mathlib.Core.List.{List, [], ◌∷◌}
use native.Mathlib.Omega.{arith}
use akari.Prelude.Lists.{length}

-- `Pick x xs rest`: `rest` is `xs` without one occurrence of `x`.
pub data Pick {ℓ} {A : Type ℓ} (x : A) : List A → List A → Type ℓ where
  here : {xs : List A} → Pick x (x ∷ xs) xs
  there : {y : A} {xs rest : List A} → Pick x xs rest → Pick x (y ∷ xs) (y ∷ rest)

-- The rests of two picks from one list: of the same element, or each still holds the other's.
pub data Diamond {ℓ} {A : Type ℓ} (x y : A) (xs ys : List A) : Type ℓ where
  same : x ≡ y → xs ≡ ys → Diamond x y xs ys
  apart : {zs : List A} → Pick y xs zs → Pick x ys zs → Diamond x y xs ys

abbrev pub All {ℓ κ} : {A : Type ℓ} → (A → Type κ) → List A → Type κ
All P [] = Unit
All P (x ∷ xs) = P x × All P xs

module _ {ℓ} {A : Type ℓ} where
  pub length-Pick : {x : A} {xs rest : List A} → Pick x xs rest → length xs ≡ length rest + 1
  length-Pick here = omega arith
  length-Pick (there p) = omega (arith, length-Pick p)

  Diamond-cons : {x y a : A} {xs ys : List A} → Diamond x y xs ys → Diamond x y (a ∷ xs) (a ∷ ys)
  Diamond-cons {a = a} (same e d) = same e (ap (◌∷◌ a) d)
  Diamond-cons (apart p q) = apart (there p) (there q)

  pub Pick-Diamond : {x y : A} {l xs ys : List A} → Pick x l xs → Pick y l ys → Diamond x y xs ys
  Pick-Diamond here here = same refl refl
  Pick-Diamond here (there q) = apart q here
  Pick-Diamond (there p) here = apart here p
  Pick-Diamond (there p) (there q) = Diamond-cons (Pick-Diamond p q)

  -- Two picks in a row can be made in the other order.
  pub Pick-swap :
      {x y : A} {l xs ys : List A}
      → Pick x l xs
      → Pick y xs ys
      → (zs : List A) × Pick y l zs × Pick x zs ys
  Pick-swap here q = (_, there q, here)
  Pick-swap (there p) here = (_, here, p)
  Pick-swap (there {y = a} p) (there q) =
      let (zs, r, s) = Pick-swap p q in (a ∷ zs, there r, there s)

  -- What is said of all elements, of the picked one and of the rest.
  pub All-Pick {κ} :
      (P : A → Type κ) {x : A} {l rest : List A} → Pick x l rest → All P l → P x × All P rest
  All-Pick P here h = h
  All-Pick P (there p) h = let r = All-Pick P p h.1 in (r.0, (h.0, r.1))

  pub Pick-All {κ} :
      (P : A → Type κ) {x : A} {l rest : List A} → Pick x l rest → P x → All P rest → All P l
  Pick-All P here p h = (p, h)
  Pick-All P (there q) p h = (h.0, Pick-All P q p h.1)
