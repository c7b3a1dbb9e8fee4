-- ===== src/Text/Format/Digits.antt =====
-- The digits that `%d` writes are read back by `atoi` as the number.
use native.Mathlib.Nat.{pow-suc, mod-add-div', mod-lt, div-lt_iff_lt-mul}
use akari.Prelude.{
  ℕ, zero, suc, ◌+◌, ◌-◌, ◌*◌, ◌/◌, ◌%◌, ◌^◌, ◌≤◌, ◌<◌, ◌≡◌, refl, ap, sym, ◌∙◌, List, false, [],
  ◌∷◌, arith, length, ◌⊎◌, inl, inr, leb, ◌==◌, if◌then◌else◌, sub32, u32_mod, ok, ◌>>=◌,
}
use akari.Text.Format.{Field, atoi_from, write_digits, place, separator, digit_char}

-- The first digit of a number below ten times the scale, and what is left.
digit_split :
    (m p : ℕ)
    → 0 < p
    → m < p * 10
    → m < u32_mod
    → (c : ℕ) × (r : ℕ) × (m / p % 256 ≡ c)
      × (c ≤ 9)
      × (sub32 m (c * p % u32_mod) ≡ r)
      × (r < p)
      × (c * p + r ≡ m)
digit_split m p pos small word =
    let few : m / p < 10 = (div-lt_iff_lt-mul pos).1 (omega (arith, small)) in
    let whole : m % p + m / p * p ≡ m = mod-add-div' m p in
    let rest : m % p < p = mod-lt m pos in
    (
      m / p,
      m % p,
      omega (arith, few),
      omega (arith, few),
      omega (arith, whole, word),
      rest,
      omega (arith, whole),
    )

pub power_pos : (k : ℕ) → 0 < 10 ^ k
power_pos zero = omega arith
power_pos (suc k) = let e : 10 ^ suc k ≡ 10 ^ k * 10 = pow-suc 10 k in omega (arith, e, power_pos k)

-- One more digit in front, as `atoi` counts it.
atoi_from-digit :
    (acc c : ℕ) (s : List ℕ)
    → c ≤ 9
    → acc * 10 + c < u32_mod
    → atoi_from acc (digit_char c ∷ s) ≡ atoi_from (acc * 10 + c) s
unfolding atoi_from digit_char
atoi_from-digit acc c s small fits = ground (
  arith,
  small,
  ap (λ n. atoi_from n s) {x = (acc * 10 + (c + b'0') - b'0') % u32_mod} {y = acc * 10 + c}
      (omega (arith, fits)),
)

-- A digit at the first scale, or at 1, is not padded.
place-digit_char :
    (f : Field) (orig p c : ℕ) → (p ≤ orig) ⊎ (p ≡ 1) → place f orig p c ≡ digit_char c
unfolding place
place-digit_char f orig p c (inl top) = ground (arith, top)
place-digit_char f orig p c (inr one) = ground (arith, one)

separator-none : (f : Field) (every left next : ℕ) → f.sepr ≡ 0 → separator f every left next ≡ []
unfolding separator
separator-none f every left next plain = ground (arith, plain)

-- One round of the loop, at a scale that is not 0.
write_step :
    (f : Field) (orig m p next k rounds c r : ℕ)
    → f.sepr ≡ 0
    → 0 < p
    → (p ≤ orig) ⊎ (p ≡ 1)
    → m / p % 256 ≡ c
    → sub32 m (c * p % u32_mod) ≡ r
    → p / 10 ≡ next
    → k < u32_mod
    → write_digits f 10 3 orig m p (suc k) (suc rounds) ≡ (
        (if leb 1 next then write_digits f 10 3 orig r next k rounds else ok [])
        >>= (λ out. ok (digit_char c ∷ out)))
unfolding write_digits
write_step f orig m p next k rounds c r plain pos top e d n small =
    let left : sub32 (suc k) 1 ≡ k = omega (arith, small) in
    let nonzero : (p == 0) ≡ false = ground (arith, pos) in
    rw (e, d, n, left, nonzero, place-digit_char f orig p c top, separator-none f 3 k next plain)
      refl

regroup : (acc c r q m : ℕ) → c * q + r ≡ m → (acc * 10 + c) * q + r ≡ acc * (q * 10) + m
regroup acc c r q m e = omega (arith, e)

le-mul : (n q : ℕ) → 0 < q → n ≤ n * q
le-mul n zero h = absurd (omega (arith, h))
le-mul n (suc q) h = omega arith

read_nothing : (n : ℕ) → atoi_from n [] ≡ n
unfolding atoi_from
read_nothing n = refl

-- The loop from scale `10 ^ k` on writes `k + 1` digits, which `atoi` reads as the number that was left.
pub write_digits-atoi :
    (f : Field) (orig k m rounds acc : ℕ)
    → f.sepr ≡ 0
    → (10 ^ k ≤ orig) ⊎ (10 ^ k ≡ 1)
    → m < 10 ^ k * 10
    → m < u32_mod
    → k < rounds
    → k < u32_mod
    → acc * (10 ^ k * 10) + m < u32_mod
    → (out : List ℕ) × (write_digits f 10 3 orig m (10 ^ k) (suc k) rounds ≡ ok out)
      × (length out ≡ suc k)
      × (atoi_from acc out ≡ acc * (10 ^ k * 10) + m)
write_digits-atoi f orig k m zero acc plain top small word more fits total =
    absurd (omega (arith, more))
write_digits-atoi f orig zero m (suc rounds) acc plain top small word more fits total =
    let (c, r, e, nine, d, less, whole) =
      digit_split m 1 (omega arith) (omega (arith, small)) word in
    let step =
      write_step f orig m 1 0 0 rounds c r plain (omega arith) (inr refl) e d refl (omega arith) in
    let same : c ≡ m = omega (arith, less, whole) in
    (
      digit_char c ∷ [],
      step,
      refl,
      atoi_from-digit acc c [] nine (omega (arith, same, total))
          ∙ read_nothing (acc * 10 + c)
          ∙ omega (arith, same),
    )
write_digits-atoi f orig (suc k) m (suc rounds) acc plain top small word more fits total =
    let p = 10 ^ k in
    let scaled : 10 ^ suc k ≡ p * 10 = pow-suc 10 k in
    let (c, r, e, nine, d, less, whole) =
      digit_split m (10 ^ suc k) (power_pos (suc k)) small word in
    let down : 10 ^ suc k / 10 ≡ p = omega (arith, scaled) in
    let pos : 0 < p = power_pos k in
    let step =
      write_step f orig m (10 ^ suc k) p (suc k) rounds c r plain (power_pos (suc k)) top e d down
        fits in
    let q = 10 ^ suc k in
    let again : (acc * 10 + c) * q + r ≡ acc * (q * 10) + m = regroup acc c r q m whole in
    let fit : acc * 10 + c < u32_mod =
      omega (arith, le-mul (acc * 10 + c) q (power_pos (suc k)), again, total) in
    let lower : (p ≤ orig) ⊎ (p ≡ 1) = elim top [
      | inl t ↦ inl (omega (arith, t, scaled))
      | inr t ↦ absurd (omega (arith, t, scaled))
    ] in
    let value : (acc * 10 + c) * (p * 10) + r ≡ acc * (q * 10) + m =
      ap (λ x. (acc * 10 + c) * x + r) (sym scaled) ∙ again in
    let (out, w, size, a) =
      write_digits-atoi f orig k r rounds (acc * 10 + c) plain lower (omega (arith, less, scaled))
        (omega (arith, less, word, whole)) (omega (arith, more)) (omega (arith, fits))
        (omega (arith, value, total)) in
    (
      digit_char c ∷ out,
      ground (arith, step, w, pos),
      omega (arith, size),
      atoi_from-digit acc c out nine fit ∙ a ∙ value,
    )
