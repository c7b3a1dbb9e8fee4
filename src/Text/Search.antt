-- ===== src/Text/Search.antt =====
-- `strpos` finds the first place where the needle stands in the haystack.
use native.Mathlib.Decide.{ℕ_discrete}
use akari.Prelude.{
  ℕ, zero, suc, ◌+◌, ◌-◌, ◌≤◌, ◌<◌, ◌≡◌, ◌⊎◌, inl, inr, refl, ap, sym, ◌∙◌, subst, List, [], ◌∷◌,
  arith, take, drop, length, length-take, length-drop,
}
use akari.Text.{npos, strcmpn, strpos, strpos_from}
use akari.Text.Compare.{IsText, strcmpn-take}

-- The needle stands at place `i` of the haystack.
abbrev pub Occurs : List ℕ → List ℕ → ℕ → Type 0
Occurs needle haystack i = take (length needle) (drop i haystack) ≡ needle

IsText-drop : (i : ℕ) (s : List ℕ) → IsText s → IsText (drop i s)
IsText-drop zero s v = v
IsText-drop (suc i) [] v = tt
IsText-drop (suc i) (a ∷ s) v = IsText-drop i s v.1

drop-drop : (i : ℕ) (s : List ℕ) → drop 1 (drop i s) ≡ drop (i + 1) s
drop-drop zero s = ap (λ k. drop k s) {x = 1} {y = 0 + 1} (omega arith)
drop-drop (suc i) [] = ap (λ k. drop {A = ℕ} k []) {x = suc (i + 1)} {y = suc i + 1} (omega arith)
drop-drop (suc i) (a ∷ s) =
    drop-drop i s ∙ ap (λ k. drop k (a ∷ s)) {x = suc (i + 1)} {y = suc i + 1} (omega arith)

-- An occurrence has the haystack's bytes to stand in.
Occurs-bound :
    (needle haystack : List ℕ) (i : ℕ)
    → 0 < length needle
    → Occurs needle haystack i
    → i + length needle ≤ length haystack
Occurs-bound needle haystack i p e =
    omega
      (arith, p, ap length e, length-take (length needle) (drop i haystack), length-drop i haystack)

-- What a search from place `i` on returns.
First : List ℕ → List ℕ → ℕ → ℕ → ℕ → Type 0
First haystack needle i rounds r =
    ((k : ℕ) × (r ≡ k)
      × (k < i + rounds)
      × Occurs needle haystack k
      × ((j : ℕ) → i ≤ j → j < k → ¬ Occurs needle haystack j))
    ⊎ (r ≡ npos) × ((j : ℕ) → i ≤ j → j < i + rounds → ¬ Occurs needle haystack j)

strpos_from-First :
    (haystack needle : List ℕ) (i rounds : ℕ)
    → IsText haystack
    → IsText needle
    → First haystack needle i rounds (strpos_from (drop i haystack) needle i rounds)
unfolding strpos_from First
strpos_from-First haystack needle i zero v w = inr (refl, λ j l u o. absurd (omega (arith, l, u)))
strpos_from-First haystack needle i (suc rounds) v w =
    let test = strcmpn-take (drop i haystack) needle (IsText-drop i haystack v) w in
    let next : strpos_from (drop 1 (drop i haystack)) needle (i + 1) rounds
        ≡ strpos_from (drop (i + 1) haystack) needle (i + 1) rounds =
      ap (λ h. strpos_from h needle (i + 1) rounds) (drop-drop i haystack) in
    elim (ℕ_discrete (strcmpn (drop i haystack) needle (length needle)) 0) [
      | yes p ↦
          inl (i, ground (arith, p), omega arith, test.0 p, λ j l u o. absurd (omega (arith, l, u)))
      | no n ↦ elim (strpos_from-First haystack needle (i + 1) rounds v w) [
        | inl r ↦
            let (k, e, u, o, h) = r in
            inl (k, ground (arith, n, next, e), omega (arith, u), o, before h (λ o. n (test.1 o)))
        | inr r ↦ inr (
          ground (arith, n, next, r.0),
          before (λ j l u. r.1 j l (omega (arith, u))) (λ o. n (test.1 o)),
        )
      ]
    ]
  where
    before :
        {k : ℕ}
        → ((j : ℕ) → i + 1 ≤ j → j < k → ¬ Occurs needle haystack j)
        → ¬ Occurs needle haystack i
        → (j : ℕ) → i ≤ j
        → j < k
        → ¬ Occurs needle haystack j
    before h here j l u o = elim (ℕ_discrete i j) [
      | yes p ↦ here (subst (Occurs needle haystack) (sym p) o)
      | no n ↦ h j (omega (arith, n, l)) u o
    ]

-- For strings of bytes other than NUL, with a needle that is not empty, `strpos` returns the first
-- place where the needle occurs in the haystack, or npos when it occurs nowhere.
pub strpos-Occurs :
    (haystack needle : List ℕ)
    → IsText haystack
    → IsText needle
    → 0 < length needle
    → ((k : ℕ) × (strpos haystack needle ≡ k)
        × Occurs needle haystack k
        × ((j : ℕ) → j < k → ¬ Occurs needle haystack j))
      ⊎ (strpos haystack needle ≡ npos) × ((j : ℕ) → ¬ Occurs needle haystack j)
unfolding strpos First
strpos-Occurs haystack needle v w p =
    elim (strpos_from-First haystack needle 0 (suc (length haystack) - length needle) v w) [
      | inl r ↦ let (k, e, u, o, h) = r in inl (k, e, o, λ j l. h j (omega arith) l)
      | inr r ↦ inr (
        r.0,
        λ j o.
            let b = Occurs-bound needle haystack j p o in r.1 j (omega arith) (omega (arith, b)) o,
      )
    ]
