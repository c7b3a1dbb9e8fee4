-- ===== src/Text/Format/Tests.antt =====
-- Formats as the kernel uses them, and the theorem at a number.
use akari.Prelude.{ℕ, ◌≡◌, refl, List, [], ◌∷◌, arith, ok, fault}
use akari.Text.Format.{
  word, vasprintf, atoi, no_field, write_number, scale, write_digits, place, separator, digit_char,
  format_from, format_step, flag, convert,
}
use akari.Text.Format.Scale.{atoi-write_number}

-- "0x%x" at 0xC0DE
prints_hex :
    vasprintf (48 ∷ 120 ∷ 37 ∷ 120 ∷ []) (word 0xC0DE ∷ [])
    ≡ ok (48 ∷ 120 ∷ 99 ∷ 48 ∷ 100 ∷ 101 ∷ [])
unfolding vasprintf format_from format_step flag convert write_number scale write_digits place
    separator digit_char
prints_hex = refl

-- "%05d" at 42
pads_zeros : vasprintf (37 ∷ 48 ∷ 53 ∷ 100 ∷ []) (word 42 ∷ []) ≡ ok (48 ∷ 48 ∷ 48 ∷ 52 ∷ 50 ∷ [])
unfolding vasprintf format_from format_step flag convert write_number scale write_digits place
    separator digit_char
pads_zeros = refl

-- "%9x" divides by a scale that has wrapped around to 0.
wide_hex_faults : vasprintf (37 ∷ 57 ∷ 120 ∷ []) (word 1 ∷ []) ≡ fault
unfolding vasprintf format_from format_step flag convert write_number scale
wide_hex_faults = refl

atoi-write_number_example :
    (out : List ℕ) × (write_number no_field 10 3 1_250_000 ≡ ok out) × (atoi out ≡ 1_250_000)
atoi-write_number_example = atoi-write_number 1_250_000 (omega arith)
