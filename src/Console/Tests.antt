-- ===== src/Console/Tests.antt =====
-- A blank screen, with the cursor in its last cell.
use akari.Prelude.{ℕ, List, [], ◌∷◌, arith, length-replicate, replicate}
use akari.Console.{Console, blank, put_string}
use akari.Console.Scroll.{IsConsole}
use akari.Console.Bounds.{Stays, put_string-IsConsole}

abbrev last_cell : Console
last_cell = record {
  cursor_x = 79;
  cursor_y = 24;
  last_high_char = 0;
  vmem = replicate 2000 blank;
  shown = 1999;
}

last_cell-IsConsole : IsConsole last_cell
last_cell-IsConsole = record {
  x = omega arith;
  y = omega arith;
  size = length-replicate 2000 blank;
}

-- An umlaut, a tab and a newline.
abbrev text : List ℕ
text = b'a' ∷ 195 ∷ 188 ∷ 9 ∷ 10 ∷ 8 ∷ []

put_string-IsConsole_example : Stays (put_string last_cell text)
put_string-IsConsole_example = put_string-IsConsole last_cell text last_cell-IsConsole

abbrev below : Console
below = record last_cell { cursor_x = 0; cursor_y = 25 }
