-- ===== src/Console/Fill.antt =====
-- What the loop that makes cells blank leaves.
use akari.Prelude.{
  ℕ, zero, suc, ◌+◌, ◌≤◌, ◌<◌, ◌≡◌, refl, ap, sym, ◌∙◌, List, [], ◌∷◌, ◌++◌, arith, set, set-append,
  length, length-append, append_assoc, replicate, drop, ok,
}
use akari.Console.{blank, fill}

pub fill-append :
    (xs ys : List ℕ) (at n : ℕ)
    → at ≡ length xs
    → n ≤ length ys
    → fill (xs ++ ys) at n ≡ ok (xs ++ (replicate n blank ++ drop n ys))
unfolding fill
fill-append xs ys at zero e u = refl
fill-append xs [] at (suc n) e u = absurd (omega (arith, u))
fill-append xs (y ∷ ys) at (suc n) e u =
    let inside : at < length (xs ++ y ∷ ys) = omega (arith, e, length-append xs (y ∷ ys)) in
    let here : set (xs ++ y ∷ ys) at blank ≡ (xs ++ blank ∷ []) ++ ys =
      set-append at xs ys y blank e ∙ sym (append_assoc xs (blank ∷ []) ys) in
    let size : at + 1 ≡ length (xs ++ blank ∷ []) =
      omega (arith, e, length-append xs (blank ∷ [])) in
    ground (arith, inside)
    ∙ ap (λ cells. fill cells (at + 1) n) here
    ∙ fill-append (xs ++ blank ∷ []) ys (at + 1) n size (omega (arith, u))
    ∙ ap ok (append_assoc xs (blank ∷ []) (replicate n blank ++ drop n ys))
