-- ===== src/Text/Split.antt =====
-- `trim`, `split` and `substr` of string.cpp, on a string as its bytes.
pub mod Words
pub mod Trim
use akari.Prelude.{
  ℕ, zero, suc, ◌+◌, ◌-◌, Bool, true, false, not, ◌&&◌, ◌||◌, List, [], ◌∷◌, get_elem?, take, drop,
  length, ltb, leb, ◌==◌, if◌then◌else◌, Result, ok, fault, ◌>>=◌, or_fault,
}

abbrev pub isspace : ℕ → Bool
isspace c = (leb 9 c && leb c 13) || c == 32

abbrev pub letter : ℕ → Bool
letter c = not (isspace c)

-- `substr`
unfoldable pub substr : List ℕ → ℕ → ℕ → List ℕ
substr s pos n =
    if ltb (length s) pos
    then []
    else (let n' = if ltb (length s - pos) n then length s - pos else n in take n' (drop pos s))

-- A loop that counts how many bytes in a row pass a test.
unfoldable pub count_while : (ℕ → Bool) → List ℕ → ℕ
count_while test [] = 0
count_while test (c ∷ s) = if test c then suc (count_while test s) else 0

-- The second loop of `trim`, from an index down.
unfoldable pub last_index : List ℕ → ℕ → Result ℕ
last_index s zero = do c ← or_fault (get_elem? s 0); if isspace c then fault else ok 0
last_index s (suc end) = do
  c ← or_fault (get_elem? s (suc end))
  let before = last_index s end
  if isspace c then before else ok (suc end)

unfoldable pub trim : List ℕ → Result (List ℕ)
trim s =
    let start = count_while isspace s in
    let rest : Result (List ℕ) =
      last_index s (length s - 1) >>= (λ end. ok (take ((end - start) + 1) (drop start s))) in
    if start == length s then ok [] else rest

-- The loop of `split` from an offset on.
unfoldable pub split_from : List ℕ → ℕ → ℕ → Result (List (List ℕ))
split_from base offset zero = fault
split_from base offset (suc rounds) =
    let index = count_while letter (drop offset base) in
    let spaces = count_while isspace (drop (offset + index) base) in
    let rest : Result (List (List ℕ)) =
      split_from base (offset + (index + spaces)) rounds
      >>= (λ words. ok (substr base offset index ∷ words)) in
    if ltb offset (length base) then rest else ok []

-- A round takes a byte at least.
unfoldable pub split : List ℕ → Result (List (List ℕ))
split s = trim s >>= (λ base. split_from base 0 (suc (length base)))
