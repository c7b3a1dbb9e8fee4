-- ===== src/Prelude.antt =====
-- The names that every module shares: the libraries', passed on, and those of the children:
-- tests on numbers, lists measured by native numbers, machine words and kernel results.
mod Tests
mod Lists
mod Slices
mod Ranges
mod Picks
mod Words
mod Results
mod Bits
pub use Tests.*
pub use Lists.*
pub use Slices.*
unfoldable pub use Ranges.{overwrite}
pub use Ranges.*
pub use Picks.*
pub use Words.*
pub use Results.*
unfoldable pub use Bits.{test_bit, set_bit, clear_bit}
pub use Bits.*
pub use Prim.Native.Nat.{ℕ, zero, suc, ◌+◌, ◌-◌, ◌*◌, ◌/◌, ◌%◌, ◌^◌, ◌≤◌, ◌<◌}
pub use mathlib.Core.Path.{◌≡◌, refl, sym, ap, ◌∙◌, subst}
pub use mathlib.Core.Logic.{◌≢◌, ◌↔◌, ◌⊎◌, inl, inr}
pub use mathlib.Core.Bool.{Bool, true, false, not, ◌&&◌, ◌||◌}
pub use mathlib.Core.Option.{Option, none, some}
pub use mathlib.Core.List.{List, [], ◌∷◌, ◌++◌, map, append_assoc}
pub use native.Mathlib.Omega.{arith}
