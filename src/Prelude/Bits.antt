-- ===== src/Prelude/Bits.antt =====
-- Single bits of a word, by its binary digits: `x & (1 << k)`, `x | (1 << k)` and `x & ~(1 << k)`.
use Prim.Native.Nat.{ℕ, zero, suc, ◌+◌, ◌*◌, ◌/◌, ◌%◌, ◌^◌, ◌<◌}
use mathlib.Core.Path.{◌≡◌, ap}
use mathlib.Core.Logic.{◌≢◌, inl, inr}
use mathlib.Core.Bool.{Bool, true, false}
use native.Mathlib.Omega.{arith}
use native.Mathlib.Nat.{pow-suc}
use akari.Prelude.Tests.{◌==◌, if◌then◌else◌, Bool-cases}

-- `x & (1 << k)` is not 0.
unfoldable pub test_bit : ℕ → ℕ → Bool
test_bit x zero = x % 2 == 1
test_bit x (suc k) = test_bit (x / 2) k

-- `x | (1 << k)`
unfoldable pub set_bit : ℕ → ℕ → ℕ
set_bit x zero = x / 2 * 2 + 1
set_bit x (suc k) = set_bit (x / 2) k * 2 + x % 2

-- `x & ~(1 << k)`
unfoldable pub clear_bit : ℕ → ℕ → ℕ
clear_bit x zero = x / 2 * 2
clear_bit x (suc k) = clear_bit (x / 2) k * 2 + x % 2

pub test_bit-set_bit :
    (x j k : ℕ) → test_bit (set_bit x j) k ≡ (if j == k then true else test_bit x k)
unfolding test_bit set_bit
test_bit-set_bit x zero zero = ground arith
test_bit-set_bit x zero (suc k) = ground (arith, ap (λ y. test_bit y k) (half x))
  where
    half : (x : ℕ) → (x / 2 * 2 + 1) / 2 ≡ x / 2
    half x = omega arith
test_bit-set_bit x (suc j) zero = ground arith
test_bit-set_bit x (suc j) (suc k) =
    ground
      (arith, test_bit-set_bit (x / 2) j k, ap (λ y. test_bit y k) (half (set_bit (x / 2) j) x))
  where
    half : (y x : ℕ) → (y * 2 + x % 2) / 2 ≡ y
    half y x = omega arith

pub test_bit-clear_bit :
    (x j k : ℕ) → test_bit (clear_bit x j) k ≡ (if j == k then false else test_bit x k)
unfolding test_bit clear_bit
test_bit-clear_bit x zero zero = ground arith
test_bit-clear_bit x zero (suc k) = ground (arith, ap (λ y. test_bit y k) (half x))
  where
    half : (x : ℕ) → (x / 2 * 2) / 2 ≡ x / 2
    half x = omega arith
test_bit-clear_bit x (suc j) zero = ground arith
test_bit-clear_bit x (suc j) (suc k) =
    ground
      (arith, test_bit-clear_bit (x / 2) j k, ap (λ y. test_bit y k) (half (clear_bit (x / 2) j) x))
  where
    half : (y x : ℕ) → (y * 2 + x % 2) / 2 ≡ y
    half y x = omega arith

-- A word that is not all ones has a bit that is clear.
pub clear_bit_exists :
    (w x : ℕ) → x < 2 ^ w → suc x ≢ 2 ^ w → (k : ℕ) × (k < w) × (test_bit x k ≡ false)
unfolding test_bit
clear_bit_exists zero x h n = absurd (n (omega arith))
clear_bit_exists (suc w) x h n = elim (Bool-cases (x % 2 == 1)) [
  | inl odd ↦
      let double : 2 ^ suc w ≡ 2 ^ w * 2 = simp pow-suc (omega arith) in
      let (k, l, e) =
        clear_bit_exists w (x / 2) (omega (arith, double))
          (λ full. n (ground (arith, full, double))) in
      (suc k, omega arith, e)
  | inr even ↦ (0, omega arith, even)
]

-- A word of ones has every bit set.
pub full_bit : (w x k : ℕ) → suc x ≡ 2 ^ w → k < w → test_bit x k ≡ true
unfolding test_bit
full_bit zero x k e l = absurd (omega arith)
full_bit (suc w) x zero e l =
    let double : 2 ^ suc w ≡ 2 ^ w * 2 = simp pow-suc (omega arith) in ground (arith, e, double)
full_bit (suc w) x (suc k) e l =
    let double : 2 ^ suc w ≡ 2 ^ w * 2 = simp pow-suc (omega arith) in
    full_bit w (x / 2) k (omega (arith, e, double)) (omega arith)

pub set_bit_bound : (w x k : ℕ) → x < 2 ^ w → k < w → set_bit x k < 2 ^ w
unfolding set_bit
set_bit_bound zero x k h l = absurd (omega arith)
set_bit_bound (suc w) x zero h l =
    let double : 2 ^ suc w ≡ 2 ^ w * 2 = simp pow-suc (omega arith) in omega (arith, h, double)
set_bit_bound (suc w) x (suc k) h l =
    let double : 2 ^ suc w ≡ 2 ^ w * 2 = simp pow-suc (omega arith) in
    let r = set_bit_bound w (x / 2) k (omega (arith, h, double)) (omega arith) in
    omega (arith, r, double)
