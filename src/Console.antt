-- ===== src/Console.antt =====
-- Console.cpp and inc/Console.hpp: the text screen, 25 rows of 80 cells in video memory, and its cursor.
pub mod Fill
pub mod Scroll
pub mod Bounds
mod Tests
use akari.Prelude.{
  ℕ, zero, suc, ◌+◌, ◌-◌, ◌*◌, ◌/◌, ◌%◌, List, [], ◌∷◌, Option, none, some, get_elem?, set, length,
  ltb, leb, ◌==◌, ◌&&◌, if◌then◌else◌, Result, ok, fault, ◌>>=◌, or_fault,
}
use akari.Stream.{move_down}

-- The fields of `Console`, the static of `putChar`, the cells of the screen, and the index that the
-- hardware shows the cursor at.
pub record Console : Type 0 where
  pub cursor_x : ℕ
  pub cursor_y : ℕ
  pub last_high_char : ℕ
  pub vmem : List ℕ
  pub shown : ℕ

abbrev pub blank : ℕ
blank = 0x0720

-- The bytes that `unicodeTable` has of each character: the first two of its UTF-8 form.
abbrev pub unicode_table : List (ℕ × ℕ)
unicode_table =
    (195, 135)
    ∷ (195, 188)
    ∷ (195, 169)
    ∷ (195, 162)
    ∷ (195, 164)
    ∷ (195, 160)
    ∷ (195, 165)
    ∷ (195, 167)
    ∷ (195, 170)
    ∷ (195, 171)
    ∷ (195, 168)
    ∷ (195, 175)
    ∷ (195, 174)
    ∷ (195, 172)
    ∷ (195, 132)
    ∷ (195, 133)
    ∷ (195, 137)
    ∷ (195, 166)
    ∷ (195, 134)
    ∷ (195, 180)
    ∷ (195, 182)
    ∷ (195, 178)
    ∷ (195, 187)
    ∷ (195, 185)
    ∷ (195, 191)
    ∷ (195, 150)
    ∷ (195, 156)
    ∷ (194, 162)
    ∷ (226, 130)
    ∷ (194, 165)
    ∷ (226, 130)
    ∷ (198, 146)
    ∷ (195, 161)
    ∷ (195, 173)
    ∷ (195, 179)
    ∷ (195, 186)
    ∷ (195, 177)
    ∷ (195, 145)
    ∷ (194, 170)
    ∷ (194, 176)
    ∷ (194, 191)
    ∷ []

-- `_updateCursor`
unfoldable pub update_cursor : Console → Console
update_cursor c = record c { shown = c.cursor_x + 80 * c.cursor_y }

-- A loop that makes cells blank.
unfoldable pub fill : List ℕ → ℕ → ℕ → Result (List ℕ)
fill cells at zero = ok cells
fill cells at (suc n) =
    if ltb at (length cells) then fill (set cells at blank) (at + 1) n else fault

unfoldable pub clear : Console → Result Console
clear c = do
  cells ← fill c.vmem 0 2000
  ok (update_cursor (record c { vmem = cells; cursor_x = 0; cursor_y = 0 }))

-- A round of `_scroll`: the rows move up, as the bytes of a buffer that is cut do, and the last is blank.
unfoldable pub scroll_row : Console → Result Console
scroll_row c = do
  cells ← move_down c.vmem 0 80 1920
  cells' ← fill cells 1920 80
  ok (record c { vmem = cells'; cursor_y = c.cursor_y - 1 })

-- `_scroll`, with a round for each row to the cursor and one more.
unfoldable pub scroll_from : Console → ℕ → Result Console
scroll_from c zero = fault
scroll_from c (suc rounds) =
    let again : Result Console = scroll_row c >>= (λ c'. scroll_from c' rounds) in
    if ltb 24 c.cursor_y then again else ok c

abbrev pub scroll : Console → Result Console
scroll c = scroll_from c (suc c.cursor_y)

-- To the start of the next row, which scrolls the screen after the last.
abbrev pub next_row : Console → Result Console
next_row c = scroll (record c { cursor_x = 0; cursor_y = c.cursor_y + 1 })

unfoldable pub shift_cursor : Console → Result Console
shift_cursor c = do
  c' ← (if leb 80 (c.cursor_x + 1) then next_row c else ok (record c { cursor_x = c.cursor_x + 1 }))
  ok (update_cursor c')

unfoldable pub shift_cursor_backward : Console → Console
shift_cursor_backward c = update_cursor (
    if c.cursor_x == 0
    then record c { cursor_x = 79; cursor_y = c.cursor_y - 1 }
    else record c { cursor_x = c.cursor_x - 1 })

-- `_shiftCursorTab`, which does not show the cursor when it goes to the next row.
unfoldable pub shift_cursor_tab : Console → Result Console
shift_cursor_tab c =
    let x = (c.cursor_x - c.cursor_x % 8) + 8 in
    if leb 80 x then next_row c else ok (update_cursor (record c { cursor_x = x }))

unfoldable pub shift_cursor_newline : Console → Result Console
shift_cursor_newline c = next_row c >>= (λ c'. ok (update_cursor c'))

-- The low byte of the cell at the cursor, written.
unfoldable pub write_cell : Console → ℕ → Result Console
write_cell c byte = do
  let at = c.cursor_y * 80 + c.cursor_x
  cell ← or_fault (get_elem? c.vmem at)
  ok (record c { vmem = set c.vmem at (cell / 256 * 256 + byte) })

-- The search in the table, with the code of its first entry.
unfoldable pub find_code : List (ℕ × ℕ) → ℕ → ℕ → ℕ → Option ℕ
find_code [] high low code = none
find_code ((a, b) ∷ table) high low code =
    if a == high && b == low then some code else find_code table high low (code + 1)

-- `putChar` of a byte from 0x7f up: the first of two is kept, and the second is looked up with it.
unfoldable pub put_high : Console → ℕ → Result Console
put_high c byte =
    if c.last_high_char == 0
    then ok (record c { last_high_char = byte })
    else (elim (find_code unicode_table c.last_high_char byte 0x80) [
      | none ↦ ok (record c { last_high_char = 0 })
      | some code ↦
          write_cell c code
          >>= (λ c'. shift_cursor c' >>= (λ c''. ok (record c'' { last_high_char = 0 })))
    ])

unfoldable pub put_char : Console → ℕ → Result Console
put_char c byte =
    if byte == 10
    then shift_cursor_newline c
    else (if byte == 9
        then shift_cursor_tab c
        else (if byte == 8
            then ok (shift_cursor_backward c)
            else (if leb 0x7f byte then put_high c byte else (write_cell c byte >>= shift_cursor))))

unfoldable pub put_string : Console → List ℕ → Result Console
put_string c [] = ok c
put_string c (byte ∷ s) = put_char c byte >>= (λ c'. put_string c' s)

unfoldable pub put_string_n : Console → List ℕ → ℕ → Result Console
put_string_n c s zero = ok c
put_string_n c [] (suc n) = ok c
put_string_n c (byte ∷ s) (suc n) = put_char c byte >>= (λ c'. put_string_n c' s n)
