-- ===== src/Prelude/Results.antt =====
-- What a kernel operation comes to: a value, a panic (`AkariPanic`, a failed `ASSERT`), or an access
-- outside of the object that it was meant for.
use mathlib.Core.Bool.{Bool, true, false}
use mathlib.Core.Option.{Option, none, some}
use mathlib.Core.Path.{◌≡◌, refl}
use native.Mathlib.Omega.{arith}

pub data Result {ℓ} (V : Type ℓ) : Type ℓ where
  fault panic : Result V
  ok : V → Result V

module _ {ℓ κ} {V : Type ℓ} {W : Type κ} where
  infixl 5 ◌>>=◌
  abbrev pub ◌>>=◌ : Result V → (V → Result W) → Result W
  fault >>= then_do = fault
  panic >>= then_do = panic
  ok v >>= then_do = then_do v

infixl 5 ◌>>◌
abbrev pub ◌>>◌ {κ} : {W : Type κ} → Result (Unit {0}) → Result W → Result W
check >> rest = check >>= (λ _. rest)

-- `ASSERT(x)`
abbrev pub assert : Bool → Result (Unit {0})
assert false = panic
assert true = ok tt

module _ {ℓ} {V : Type ℓ} where
  -- A search whose failure panics.
  abbrev pub or_panic : Option V → Result V
  or_panic none = panic
  or_panic (some v) = ok v

  -- A raw access, which must hit a cell.
  abbrev pub or_fault : Option V → Result V
  or_fault none = fault
  or_fault (some v) = ok v

-- What a chain that succeeds went through.
pub bind_ok {ℓ κ} :
    {V : Type ℓ} {W : Type κ} (r : Result V) (then_do : V → Result W) {w : W}
    → (r >>= then_do) ≡ ok w
    → (v : V) × (r ≡ ok v) × (then_do v ≡ ok w)
bind_ok fault then_do e = absurd (ground (arith, e))
bind_ok panic then_do e = absurd (ground (arith, e))
bind_ok (ok v) then_do e = (v, refl, e)
