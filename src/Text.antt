-- ===== src/Text.antt =====
-- string.cpp: the comparison and the search of C strings. A string is the list of its bytes, without the
-- final NUL, which is read where the list ends.
pub mod Compare
pub mod Search
pub mod Last
pub mod Split
pub mod Format
mod Tests
use Prim.Native.Nat.{min}
use akari.Prelude.{
  ℕ, zero, suc, ◌+◌, ◌-◌, ◌%◌, List, [], ◌∷◌, drop, length, get_or, ltb, ◌==◌, if◌then◌else◌,
  minus_one,
}

-- The value of a `char`, which is signed, moved up by 128.
abbrev pub char_rank : ℕ → ℕ
char_rank c = (c + 128) % 256

-- The two tests on a pair of bytes that differ or end a string; -1 is its u32.
abbrev pub compare_bytes : ℕ → ℕ → ℕ → ℕ
compare_bytes a b otherwise =
    if ltb (char_rank a) (char_rank b)
    then minus_one
    else (if ltb (char_rank b) (char_rank a) then 1 else otherwise)

unfoldable pub strcmp : List ℕ → List ℕ → ℕ
strcmp [] [] = compare_bytes 0 0 0
strcmp [] (b ∷ t) = compare_bytes 0 b 0
strcmp (a ∷ s) [] = compare_bytes a 0 0
strcmp (a ∷ s) (b ∷ t) = compare_bytes a b (strcmp s t)

unfoldable pub strcmpn : List ℕ → List ℕ → ℕ → ℕ
strcmpn s t zero = 0
strcmpn [] [] (suc n) = compare_bytes 0 0 0
strcmpn [] (b ∷ t) (suc n) = compare_bytes 0 b 0
strcmpn (a ∷ s) [] (suc n) = compare_bytes a 0 0
strcmpn (a ∷ s) (b ∷ t) (suc n) = compare_bytes a b (strcmpn s t n)

-- `std::string::npos`
abbrev pub npos : ℕ
npos = minus_one

-- The loop of `strpos`, with the rest of the haystack from `i` on and `d - i + 1` rounds left.
unfoldable pub strpos_from : List ℕ → List ℕ → ℕ → ℕ → ℕ
strpos_from haystack needle i zero = npos
strpos_from haystack needle i (suc rounds) =
    let next = strpos_from (drop 1 haystack) needle (i + 1) rounds in
    if strcmpn haystack needle (length needle) == 0 then i else next

-- `strpos`, for strings shorter than 2 ^ 31.
unfoldable pub strpos : List ℕ → List ℕ → ℕ
strpos haystack needle = strpos_from haystack needle 0 (suc (length haystack) - length needle)

-- The loop of `std::string::rfind`, below a position of the string.
unfoldable pub rfind_below : List ℕ → ℕ → ℕ → ℕ
rfind_below s c zero = npos
rfind_below s c (suc pos) =
    let earlier = rfind_below s c pos in if get_or s pos 0 == c then pos else earlier

unfoldable pub rfind : List ℕ → ℕ → ℕ → ℕ
rfind s c pos = rfind_below s c (min pos (length s))
