-- ===== src/Text/Compare.antt =====
-- `strcmp` and `strcmpn` return 0 for equal strings, and equal beginnings, only.
use native.Mathlib.Decide.{ℕ_discrete}
use akari.Prelude.{ℕ, ◌<◌, ◌≡◌, ◌≢◌, ◌↔◌, refl, sym, ◌∙◌, List, [], ◌∷◌, arith, take, length, All}
use akari.Text.{compare_bytes, strcmp, strcmpn}

-- The bytes of a C string, none of which is NUL.
abbrev pub IsText : List ℕ → Type 0
IsText = All (λ b. (0 < b) × (b < 256))

-- What a comparison of two bytes returns.
module _ (a b otherwise : ℕ) where
  compare_same : a ≡ b → compare_bytes a b otherwise ≡ otherwise
  compare_same e = ground (arith, e)

  compare_other : a < 256 → b < 256 → a ≢ b → compare_bytes a b otherwise ≢ 0
  compare_other u v n = ground (arith, u, v, n)

-- `strcmp` returns 0 for two strings just when they are the same.
pub strcmp-same : (s t : List ℕ) → IsText s → IsText t → (strcmp s t ≡ 0) ↔ (s ≡ t)
unfolding strcmp
strcmp-same [] [] v w = (λ e. refl, λ e. compare_same 0 0 0 refl)
strcmp-same [] (b ∷ t) v w = (
  λ e. absurd (compare_other 0 b 0 (omega arith) w.0.1 (omega (arith, w.0.0)) e),
  λ e. absurd (ground (arith, e)),
)
strcmp-same (a ∷ s) [] v w = (
  λ e. absurd (compare_other a 0 0 v.0.1 (omega arith) (omega (arith, v.0.0)) e),
  λ e. absurd (ground (arith, e)),
)
strcmp-same (a ∷ s) (b ∷ t) v w = elim (ℕ_discrete a b) [
  | yes p ↦
      let rest = strcmp-same s t v.1 w.1 in
      let first : compare_bytes a b (strcmp s t) ≡ strcmp s t = compare_same a b (strcmp s t) p in
      (
        λ e. let same : s ≡ t = rest.0 (sym first ∙ e) in ground (arith, p, same),
        λ e. let same : s ≡ t = ground (arith, e) in first ∙ rest.1 same,
      )
  | no n ↦ (
    λ e. absurd (compare_other a b (strcmp s t) v.0.1 w.0.1 n e),
    λ e. absurd (n (ground (arith, e))),
  )
]

-- `strcmpn` over the length of the second string returns 0 just when the first begins with it.
pub strcmpn-take :
    (s t : List ℕ) → IsText s → IsText t → (strcmpn s t (length t) ≡ 0) ↔ (take (length t) s ≡ t)
unfolding strcmpn
strcmpn-take s [] v w = (λ e. refl, λ e. refl)
strcmpn-take [] (b ∷ t) v w = (
  λ e. absurd (compare_other 0 b 0 (omega arith) w.0.1 (omega (arith, w.0.0)) e),
  λ e. absurd (ground (arith, e)),
)
strcmpn-take (a ∷ s) (b ∷ t) v w = elim (ℕ_discrete a b) [
  | yes p ↦
      let rest = strcmpn-take s t v.1 w.1 in
      let first : compare_bytes a b (strcmpn s t (length t)) ≡ strcmpn s t (length t) =
        compare_same a b (strcmpn s t (length t)) p in
      (
        λ e. let same : take (length t) s ≡ t = rest.0 (sym first ∙ e) in ground (arith, p, same),
        λ e. let same : take (length t) s ≡ t = ground (arith, e) in first ∙ rest.1 same,
      )
  | no n ↦ (
    λ e. absurd (compare_other a b (strcmpn s t (length t)) v.0.1 w.0.1 n e),
    λ e. absurd (n (ground (arith, e))),
  )
]
