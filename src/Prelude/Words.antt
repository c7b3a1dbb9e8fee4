-- ===== src/Prelude/Words.antt =====
-- Machine words: the wrap-around of u8, u16 and u32 arithmetic, and the order of s32.
use Prim.Native.Nat.{ℕ, ◌+◌, ◌-◌, ◌%◌, ◌^◌}

abbrev pub u8_mod : ℕ
u8_mod = 2 ^ 8

abbrev pub u16_mod : ℕ
u16_mod = 2 ^ 16

abbrev pub u32_mod : ℕ
u32_mod = 2 ^ 32

abbrev pub add32 : ℕ → ℕ → ℕ
add32 a b = (a + b) % u32_mod

-- `-` on ℕ stops at 0, so the modulus is added first; both operands are below it.
abbrev pub sub32 : ℕ → ℕ → ℕ
sub32 a b = (a + u32_mod - b) % u32_mod

-- `static_cast<u32>(-1)`
abbrev pub minus_one : ℕ
minus_one = u32_mod - 1

-- The value of `static_cast<s32>(x)`, moved up by 2 ^ 31: it orders words as s32 does.
abbrev pub s32_rank : ℕ → ℕ
s32_rank x = (x + 2 ^ 31) % u32_mod
