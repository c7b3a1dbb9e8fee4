-- ===== src/Text/Format/Scale.antt =====
-- `%d` with no width finds the scale of the first digit, and its output is read back by `atoi`.
use native.Mathlib.Nat.{pow-suc, div-lt_iff_lt-mul}
use akari.Prelude.{
  ℕ, zero, suc, ◌+◌, ◌*◌, ◌/◌, ◌%◌, ◌^◌, ◌≤◌, ◌<◌, ◌≡◌, refl, ap, ◌∙◌, List, true, false, arith,
  ◌⊎◌, inl, inr, ltb, leb, ◌==◌, add32, u32_mod, ok, Bool-cases,
}
use akari.Text.Format.{no_field, atoi, scale, write_number}
use akari.Text.Format.Digits.{power_pos, write_digits-atoi}

-- A scale that goes ten times into `n`, or does not.
fits_ten : (n p : ℕ) → 0 < p → leb 10 (n / p) ≡ true → p * 10 ≤ n
fits_ten n p pos t = by_order (Bool-cases (ltb n (p * 10)))
  where
    by_order : (ltb n (p * 10) ≡ true) ⊎ (ltb n (p * 10) ≡ false) → p * 10 ≤ n
    by_order (inl less) =
        let few : n / p < 10 = (div-lt_iff_lt-mul pos).1 (ground (arith, less)) in
        absurd (ground (arith, few, t))
    by_order (inr more) = ground (arith, more)

below_ten : (n p : ℕ) → 0 < p → leb 10 (n / p) ≡ false → n < p * 10
below_ten n p pos t =
    let few : n < 10 * p = (div-lt_iff_lt-mul pos).0 (ground (arith, t)) in omega (arith, few)

-- The scale that is found for a number, with its count of digits.
pub record IsScale (n k : ℕ) : Type 0 where
  pub first : (10 ^ k ≤ n) ⊎ (10 ^ k ≡ 1)
  pub all : n < 10 ^ k * 10
  pub few : k < 33

-- One round of the loop, at a scale that is not 0.
module _ (n p digits rounds : ℕ) (pos : 0 < p) where
  scale_more :
      (p' digits' : ℕ)
      → leb 10 (n / p) ≡ true
      → p * 10 % u32_mod ≡ p'
      → add32 digits 1 ≡ digits'
      → scale n 10 0 p digits (suc rounds) ≡ scale n 10 0 p' digits' rounds
  unfolding scale
  scale_more p' digits' more e d =
      let nonzero : (p == 0) ≡ false = ground (arith, pos) in rw (nonzero, more, e, d) refl

  scale_ends : leb 10 (n / p) ≡ false → scale n 10 0 p digits (suc rounds) ≡ ok (p, digits)
  unfolding scale
  scale_ends less =
      let nonzero : (p == 0) ≡ false = ground (arith, pos) in
      let done : ltb digits 0 ≡ false = ground arith in rw (nonzero, less, done) refl

scale-IsScale :
    (n k rounds : ℕ)
    → n < u32_mod
    → (10 ^ k ≤ n) ⊎ (10 ^ k ≡ 1)
    → k + rounds ≡ 33
    → (j : ℕ) × (scale n 10 0 (10 ^ k) (suc k) rounds ≡ ok (10 ^ j, suc j)) × IsScale n j
scale-IsScale n k zero word top e =
    let last : k ≡ 33 = omega (arith, e) in
    let high : 10 ^ k ≡ 10 ^ 33 = ap (λ x. 10 ^ x) last in
    elim top [
      | inl t ↦ absurd (omega (arith, t, high, word))
      | inr t ↦ absurd (omega (arith, t, high))
    ]
scale-IsScale n k (suc rounds) word top e =
    let pos : 0 < 10 ^ k = power_pos k in
    let scaled : 10 ^ suc k ≡ 10 ^ k * 10 = pow-suc 10 k in
    elim (Bool-cases (leb 10 (n / 10 ^ k))) [
      | inl more ↦
          let fits : 10 ^ k * 10 ≤ n = fits_ten n (10 ^ k) pos more in
          let index : 10 ^ k * 10 % u32_mod ≡ 10 ^ suc k = omega (arith, fits, word, scaled) in
          let digits : add32 (suc k) 1 ≡ suc (suc k) = omega (arith, e) in
          let (j, s, v) =
            scale-IsScale n (suc k) rounds word (inl (omega (arith, fits, scaled)))
              (omega (arith, e)) in
          (
            j,
            scale_more n (10 ^ k) (suc k) rounds pos (10 ^ suc k) (suc (suc k)) more index digits
                ∙ s,
            v,
          )
      | inr less ↦ (
        k,
        scale_ends n (10 ^ k) (suc k) rounds pos less,
        record { first = top; all = below_ten n (10 ^ k) pos less; few = omega (arith, e) },
      )
    ]

-- `%d` of a number below 2 ^ 32, with no width, padding or separator, never fails, and `atoi` reads the
-- number back from what it writes.
pub atoi-write_number :
    (n : ℕ)
    → n < u32_mod
    → (out : List ℕ) × (write_number no_field 10 3 n ≡ ok out) × (atoi out ≡ n)
unfolding write_number atoi
atoi-write_number n word =
    let (k, s, v) = scale-IsScale n 0 33 word (inr refl) refl in
    let (out, w, size, a) =
      write_digits-atoi no_field n k n 33 0 refl v.first v.all word v.few (omega (arith, v.few))
        (omega (arith, word)) in
    (out, cc (s, w), a ∙ omega arith)
