-- ===== src/Text/Format.antt =====
-- `atoi` and `vasprintf` of string.cpp: numbers read from text, and text made from a format.
pub mod Digits
pub mod Scale
mod Tests
use akari.Prelude.{
  ℕ, zero, suc, ◌+◌, ◌-◌, ◌*◌, ◌/◌, ◌%◌, Bool, true, false, not, ◌&&◌, ◌||◌, List, [], ◌∷◌, ◌++◌,
  ltb, leb, ◌==◌, if◌then◌else◌, add32, sub32, u32_mod, Result, ok, panic, fault, ◌>>=◌,
}

abbrev pub is_digit : ℕ → Bool
is_digit c = leb b'0' c && leb c b'9'

-- The loop of `atoi`, whose `int` is kept as its u32.
unfoldable pub atoi_from : ℕ → List ℕ → ℕ
atoi_from n [] = n
atoi_from n (c ∷ s) =
    let rest = atoi_from ((n * 10 + c - b'0') % u32_mod) s in if is_digit c then rest else n

unfoldable pub atoi : List ℕ → ℕ
atoi s = atoi_from 0 s

-- A conversion of `vasprintf`, from its `%` on: `padder` and `sepr` are 0 when not given.
pub record Field : Type 0 where
  pub lenmod : ℕ
  pub padder : ℕ
  pub sepr : ℕ

-- The loop that finds the scale of the first digit, `while (n / index >= base || digits < lenmod)`. A
-- scale that has wrapped around to 0 is divided by.
unfoldable pub scale : ℕ → ℕ → ℕ → ℕ → ℕ → ℕ → Result (ℕ × ℕ)
scale n base lenmod index digits zero = panic
scale n base lenmod index digits (suc rounds) =
    let larger = scale n base lenmod (index * base % u32_mod) (add32 digits 1) rounds in
    if index == 0
    then fault
    else (if leb base (n / index) || ltb digits lenmod then larger else ok (index, digits))

-- The character for a digit, or the padding in its place.
unfoldable pub digit_char : ℕ → ℕ
digit_char c = if leb c 9 then c + b'0' else c - 10 + b'a'

unfoldable pub place : Field → ℕ → ℕ → ℕ → ℕ
place f orig index c =
    if c == 0 && ltb orig index && not (index == 1)
    then (if f.padder == 0 then b' ' else f.padder)
    else digit_char c

-- The separator after a digit, with `digits` still to come.
unfoldable pub separator : Field → ℕ → ℕ → ℕ → List ℕ
separator f every digits index =
    if digits % every == 0 && leb 1 index && not (f.sepr == 0) then f.sepr ∷ [] else []

-- The loop that writes the digits of `n`, from the one at scale `index` on.
unfoldable pub write_digits : Field → ℕ → ℕ → ℕ → ℕ → ℕ → ℕ → ℕ → Result (List ℕ)
write_digits f base every orig n index digits zero = panic
write_digits f base every orig n index digits (suc rounds) =
    let c = n / index % 256 in
    let next = index / base in
    let left = sub32 digits 1 in
    let rest = write_digits f base every orig (sub32 n (c * index % u32_mod)) next left rounds in
    let tail = if leb 1 next then rest else ok [] in
    if index == 0
    then fault
    else tail >>= (λ out. ok (place f orig index c ∷ (separator f every left next ++ out)))

-- A number as `%d` (base 10) or `%x` (base 16) prints it. Rounds: a digit for each time that the base
-- goes into a u32, and one for each that the width asks for.
unfoldable pub write_number : Field → ℕ → ℕ → ℕ → Result (List ℕ)
write_number f base every n =
    scale n base f.lenmod 1 1 (33 + f.lenmod)
    >>= (λ (index, digits). write_digits f base every n n index digits 33)

-- The arguments after the format.
pub data Arg : Type 0 where
  text : List ℕ → Arg
  word : ℕ → Arg

-- What the loop over the format keeps: whether a `%` is open, and its field.
pub record Mode : Type 0 where
  pub is_escape : Bool
  pub field : Field

abbrev pub no_field : Field
no_field = record { lenmod = 0; padder = 0; sepr = 0 }

-- The end of a conversion, by its letter: what is written, and the arguments left.
unfoldable pub convert : Field → ℕ → List Arg → Result (List ℕ × List Arg)
convert f c [] = if c == b's' || c == b'd' || c == b'x' then fault else ok ([], [])
convert f c (text s ∷ args) =
    if c == b's'
    then ok (s, args)
    else (if c == b'd' || c == b'x' then fault else ok ([], text s ∷ args))
convert f c (word n ∷ args) =
    if c == b's'
    then fault
    else (if c == b'd'
        then write_number f 10 3 n >>= (λ out. ok (out, args))
        else (if c == b'x'
            then write_number f 16 4 n >>= (λ out. ok (out, args))
            else ok ([], word n ∷ args)))

-- A flag or a width inside a conversion, which leaves it open; none for a letter that ends it.
unfoldable pub flag : Field → ℕ → Field × Bool
flag f c =
    if (c == b' ' || c == b'0') && f.lenmod == 0 && f.padder == 0
    then (record f { padder = c }, true)
    else (if c == b','
        then (record f { sepr = c }, true)
        else (if is_digit c
            then (record f { lenmod = (f.lenmod * 10 + (c - b'0')) % u32_mod }, true)
            else (f, false)))

-- One character of the format.
unfoldable pub format_step : Mode → ℕ → List Arg → Result (List ℕ × Mode × List Arg)
format_step m c args =
    let (f, more) = flag m.field c in
    let ended : Result (List ℕ × Mode × List Arg) =
      convert m.field c args >>= (λ (out, rest). ok (out, record m { is_escape = false }, rest)) in
    if c == b'%'
    then (if m.is_escape
        then ok (c ∷ [], record m { is_escape = false }, args)
        else ok ([], record { is_escape = true; field = no_field }, args))
    else (if m.is_escape
        then (if more then ok ([], record m { field = f }, args) else ended)
        else ok (c ∷ [], m, args))

unfoldable pub format_from : Mode → List ℕ → List Arg → Result (List ℕ)
format_from m [] args = ok []
format_from m (c ∷ format) args = do
  (out, m', rest) ← format_step m c args
  after ← format_from m' format rest
  ok (out ++ after)

-- `vasprintf`, as the text that it hands back.
unfoldable pub vasprintf : List ℕ → List Arg → Result (List ℕ)
vasprintf format args = format_from (record { is_escape = false; field = no_field }) format args
