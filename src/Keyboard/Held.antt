-- ===== src/Keyboard/Held.antt =====
-- The bit field of the keys that are held, and the modifiers that go with it.
use akari.Prelude.{
  ℕ, zero, suc, ◌/◌, ◌%◌, ◌<◌, ◌≡◌, ◌≢◌, inl, inr, refl, ap, sym, ◌∙◌, Bool, false, List, [], ◌∷◌,
  Option, none, some, arith, get_elem?, get_elem?-lt, length, ◌==◌, if◌then◌else◌, test_bit,
  Option-cases,
}
use akari.Keyboard.{update_at}

pub update_at-some :
    (f : ℕ → ℕ) (xs : List ℕ) (i : ℕ)
    → i < length xs
    → (ys : List ℕ) × (update_at f xs i ≡ some ys) × (length ys ≡ length xs)
unfolding update_at
update_at-some f [] i l = absurd (omega (arith, l))
update_at-some f (x ∷ xs) zero l = (f x ∷ xs, refl, refl)
update_at-some f (x ∷ xs) (suc i) l =
    let (ys, e, s) = update_at-some f xs i (omega (arith, l)) in
    (x ∷ ys, ground (arith, e), ground (arith, s))

abbrev map_option : (ℕ → ℕ) → Option ℕ → Option ℕ
map_option f none = none
map_option f (some x) = some (f x)

get_elem?-update_at :
    (f : ℕ → ℕ) (xs ys : List ℕ) (i j : ℕ)
    → update_at f xs i ≡ some ys
    → get_elem? ys j ≡ (if i == j then map_option f (get_elem? xs j) else get_elem? xs j)
unfolding update_at
get_elem?-update_at f [] ys i j e = absurd (ground (arith, e))
get_elem?-update_at f (x ∷ xs) ys zero zero e =
    let same : f x ∷ xs ≡ ys = ground (arith, e) in ap (λ l. get_elem? l 0) (sym same)
get_elem?-update_at f (x ∷ xs) ys zero (suc j) e =
    let same : f x ∷ xs ≡ ys = ground (arith, e) in
    ap (λ l. get_elem? l (suc j)) (sym same) ∙ ground arith
get_elem?-update_at f (x ∷ xs) ys (suc i) j e = elim (Option-cases (update_at f xs i)) [
  | inl nothing ↦ absurd (ground (arith, e, nothing))
  | inr r ↦
      let (zs, u) = r in
      let same : x ∷ zs ≡ ys = ground (arith, e, u) in
      ap (λ l. get_elem? l j) (sym same) ∙ behind zs j (get_elem?-update_at f xs zs i) u
]
  where
    behind :
        (zs : List ℕ) (j : ℕ)
        → ((j : ℕ)
            → update_at f xs i ≡ some zs
            → get_elem? zs j ≡ (if i == j then map_option f (get_elem? xs j) else get_elem? xs j))
        → update_at f xs i ≡ some zs
        → get_elem? (x ∷ zs) j
          ≡ (if suc i == j then map_option f (get_elem? (x ∷ xs) j) else get_elem? (x ∷ xs) j)
    behind zs zero h u = ground arith
    behind zs (suc j) h u = h j u ∙ ground arith

-- The test of a bit of an element that may not be there.
unfoldable pub bit_of : Option ℕ → ℕ → Bool
bit_of none k = false
bit_of (some b) k = test_bit b k

-- Whether a key is held.
abbrev pub is_held : List ℕ → ℕ → Bool
is_held held c = bit_of (get_elem? held (c / 8)) (c % 8)

module _ (f : ℕ → ℕ → ℕ) (to : Bool)
    (h : (b i k : ℕ) → test_bit (f b i) k ≡ (if i == k then to else test_bit b k)) where
  pub is_held-update :
      (held held' : List ℕ) (s c : ℕ)
      → s / 8 < length held
      → update_at (λ b. f b (s % 8)) held (s / 8) ≡ some held'
      → is_held held' c ≡ (if s == c then to else is_held held c)
  unfolding bit_of
  is_held-update held held' s c l e =
      let at : get_elem? held' (c / 8) ≡ (
          if s / 8 == c / 8
          then map_option (λ b. f b (s % 8)) (get_elem? held (c / 8))
          else get_elem? held (c / 8)) =
        get_elem?-update_at (λ b. f b (s % 8)) held held' (s / 8) (c / 8) e in
      elim (Option-cases (get_elem? held (c / 8))) [
        | inl nothing ↦
            let (b, g) = get_elem?-lt held (s / 8) l in
            let other : s ≢ c =
              λ p. ground (arith, g, nothing, ap (λ i. get_elem? held (i / 8)) p) in
            ground (arith, at, nothing, other)
        | inr r ↦ let (b, g) = r in let bit = h b (s % 8) (c % 8) in ground (arith, at, g, bit)
      ]
