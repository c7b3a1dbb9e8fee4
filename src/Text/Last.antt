-- ===== src/Text/Last.antt =====
-- `rfind` finds the last place of a character before a position.
use native.Mathlib.Decide.{ℕ_discrete}
use Prim.Native.Nat.{min}
use akari.Prelude.{
  ℕ, zero, suc, ◌≤◌, ◌<◌, ◌≡◌, ◌≢◌, ◌⊎◌, inl, inr, refl, ap, sym, ◌∙◌, List, arith, length, get_or,
}
use akari.Text.{npos, rfind, rfind_below}

-- What a search below `pos` returns.
abbrev Last : List ℕ → ℕ → ℕ → ℕ → Type 0
Last s c pos r =
    ((k : ℕ) × (r ≡ k)
      × (k < pos)
      × (get_or s k 0 ≡ c)
      × ((j : ℕ) → k < j → j < pos → get_or s j 0 ≢ c))
    ⊎ (r ≡ npos) × ((j : ℕ) → j < pos → get_or s j 0 ≢ c)

extend :
    (s : List ℕ) (c pos low : ℕ)
    → get_or s pos 0 ≢ c
    → ((j : ℕ) → low ≤ j → j < pos → get_or s j 0 ≢ c)
    → (j : ℕ) → low ≤ j
    → j < suc pos
    → get_or s j 0 ≢ c
extend s c pos low n h j l u e = elim (ℕ_discrete j pos) [
  | yes p ↦ n (ap (λ i. get_or s i 0) (sym p) ∙ e)
  | no m ↦ h j l (omega (arith, u, m)) e
]

rfind_below-Last : (s : List ℕ) (c pos : ℕ) → Last s c pos (rfind_below s c pos)
unfolding rfind_below
rfind_below-Last s c zero = inr (refl, λ j u. absurd (omega (arith, u)))
rfind_below-Last s c (suc pos) = elim (ℕ_discrete (get_or s pos 0) c) [
  | yes p ↦ inl (pos, ground (arith, p), omega arith, p, λ j l u. absurd (omega (arith, l, u)))
  | no n ↦ elim (rfind_below-Last s c pos) [
    | inl r ↦
        let (k, e, u, at, h) = r in
        inl (k, ground (arith, n, e), omega (arith, u), at, extend s c pos (suc k) n h)
    | inr r ↦
        inr (ground (arith, n, r.0), λ j u. extend s c pos 0 n (λ i l v. r.1 i v) j (omega arith) u)
  ]
]

-- `rfind` returns the last place before `pos`, and inside the string, where the character stands, or
-- npos when it stands at none of them.
pub rfind-Last :
    (s : List ℕ) (c pos : ℕ)
    → ((k : ℕ) × (rfind s c pos ≡ k)
        × (k < min pos (length s))
        × (get_or s k 0 ≡ c)
        × ((j : ℕ) → k < j → j < min pos (length s) → get_or s j 0 ≢ c))
      ⊎ (rfind s c pos ≡ npos) × ((j : ℕ) → j < min pos (length s) → get_or s j 0 ≢ c)
unfolding rfind
rfind-Last s c pos = rfind_below-Last s c (min pos (length s))
