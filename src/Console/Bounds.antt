-- ===== src/Console/Bounds.antt =====
-- The cells that printing reads and writes.
use akari.Prelude.{
  ℕ, ◌+◌, ◌-◌, ◌*◌, ◌/◌, ◌%◌, ◌<◌, ◌≡◌, refl, ◌∙◌, List, [], ◌∷◌, arith, length, length-set, set,
  get_elem?-lt, ltb, leb, ◌==◌, Bool-cases, Option-cases, inl, inr, Result, ok,
}
use akari.Console.{
  Console, update_cursor, shift_cursor, shift_cursor_backward, shift_cursor_tab,
  shift_cursor_newline, next_row, write_cell, find_code, unicode_table, put_high, put_char,
  put_string,
}
use akari.Console.Scroll.{IsConsole, scrolled, length-scrolled, scroll-scrolled}

-- An operation that succeeds, and leaves a console.
abbrev pub Stays : Result Console → Type 0
Stays r = (c' : Console) × (r ≡ ok c') × IsConsole c'

next_row-Stays : (c : Console) → length c.vmem ≡ 2000 → c.cursor_y < 25 → Stays (next_row c)
next_row-Stays c e u =
    let down : Console = record c { cursor_x = 0; cursor_y = c.cursor_y + 1 } in
    let done = scroll-scrolled down e (omega (arith, u)) in
    elim (Bool-cases (ltb (c.cursor_y + 1) 25)) [
      | inl above ↦ (
        down,
        ground (arith, done, above),
        record { x = omega arith; y = ground (arith, above); size = e },
      )
      | inr below ↦ (
        record down { vmem = scrolled c.vmem; cursor_y = 24 },
        ground (arith, done, below),
        record { x = omega arith; y = omega arith; size = length-scrolled c.vmem e },
      )
    ]

shift_cursor-Stays : (c : Console) → IsConsole c → Stays (shift_cursor c)
unfolding shift_cursor update_cursor
shift_cursor-Stays c h = elim (Bool-cases (leb 80 (c.cursor_x + 1))) [
  | inl wraps ↦
      let (c', e, h') = next_row-Stays c h.size h.y in
      (update_cursor c', ground (arith, wraps, e), record { x = h'.x; y = h'.y; size = h'.size })
  | inr stays ↦ (
    update_cursor (record c { cursor_x = c.cursor_x + 1 }),
    ground (arith, stays),
    record { x = ground (arith, stays); y = h.y; size = h.size },
  )
]

write_cell-Stays : (c : Console) (byte : ℕ) → IsConsole c → Stays (write_cell c byte)
unfolding write_cell
write_cell-Stays c byte h =
    let at = c.cursor_y * 80 + c.cursor_x in
    let (cell, e) = get_elem?-lt c.vmem at (omega (arith, h.x, h.y, h.size)) in
    (
      record c { vmem = set c.vmem at (cell / 256 * 256 + byte) },
      ground (arith, e),
      record { x = h.x; y = h.y; size = length-set c.vmem at (cell / 256 * 256 + byte) ∙ h.size },
    )

put_high-Stays : (c : Console) (byte : ℕ) → IsConsole c → Stays (put_high c byte)
unfolding put_high
put_high-Stays c byte h = elim (Bool-cases (c.last_high_char == 0)) [
  | inl first ↦ (
    record c { last_high_char = byte },
    ground (arith, first),
    record { x = h.x; y = h.y; size = h.size },
  )
  | inr second ↦ elim (Option-cases (find_code unicode_table c.last_high_char byte 0x80)) [
    | inl unknown ↦ (
      record c { last_high_char = 0 },
      ground (arith, second, unknown),
      record { x = h.x; y = h.y; size = h.size },
    )
    | inr r ↦
        let (code, known) = r in
        let (c', e, h') = write_cell-Stays c code h in
        let (c'', e', h'') = shift_cursor-Stays c' h' in
        (
          record c'' { last_high_char = 0 },
          ground (arith, second, known, e, e'),
          record { x = h''.x; y = h''.y; size = h''.size },
        )
  ]
]

newline-Stays : (c : Console) → IsConsole c → Stays (shift_cursor_newline c)
unfolding shift_cursor_newline update_cursor
newline-Stays c h =
    let (c', e, h') = next_row-Stays c h.size h.y in
    (update_cursor c', ground (arith, e), record { x = h'.x; y = h'.y; size = h'.size })

tab-Stays : (c : Console) → IsConsole c → Stays (shift_cursor_tab c)
unfolding shift_cursor_tab update_cursor
tab-Stays c h =
    let x = (c.cursor_x - c.cursor_x % 8) + 8 in
    elim (Bool-cases (leb 80 x)) [
      | inl wraps ↦
          let (c', e, h') = next_row-Stays c h.size h.y in (c', ground (arith, wraps, e), h')
      | inr stays ↦ (
        update_cursor (record c { cursor_x = x }),
        ground (arith, stays),
        record { x = ground (arith, stays); y = h.y; size = h.size },
      )
    ]

backward-IsConsole : (c : Console) → IsConsole c → IsConsole (shift_cursor_backward c)
unfolding shift_cursor_backward update_cursor
backward-IsConsole c h = record {
  x = ground (arith, h.x);
  y = ground (arith, h.y);
  size = ground (arith, h.size);
}

-- `putChar` of any byte on a console reads and writes no cell but those of the screen, and keeps the cursor
-- on it.
pub put_char-IsConsole : (c : Console) (byte : ℕ) → IsConsole c → Stays (put_char c byte)
unfolding put_char
put_char-IsConsole c byte h = elim (Bool-cases (byte == 10)) [
  | inl is_newline ↦ let (c', e, h') = newline-Stays c h in (c', ground (arith, is_newline, e), h')
  | inr n ↦ elim (Bool-cases (byte == 9)) [
    | inl is_tab ↦ let (c', e, h') = tab-Stays c h in (c', ground (arith, n, is_tab, e), h')
    | inr t ↦ elim (Bool-cases (byte == 8)) [
      | inl is_back ↦
          (shift_cursor_backward c, ground (arith, n, t, is_back), backward-IsConsole c h)
      | inr b ↦ elim (Bool-cases (leb 0x7f byte)) [
        | inl high ↦
            let (c', e, h') = put_high-Stays c byte h in (c', ground (arith, n, t, b, high, e), h')
        | inr plain ↦
            let (c', e, h') = write_cell-Stays c byte h in
            let (c'', e', h'') = shift_cursor-Stays c' h' in
            (c'', ground (arith, n, t, b, plain, e, e'), h'')
      ]
    ]
  ]
]

-- So does `putString` of any string.
pub put_string-IsConsole : (c : Console) (s : List ℕ) → IsConsole c → Stays (put_string c s)
unfolding put_string
put_string-IsConsole c [] h = (c, refl, h)
put_string-IsConsole c (byte ∷ s) h =
    let (c', e, h') = put_char-IsConsole c byte h in
    let (c'', e', h'') = put_string-IsConsole c' s h' in (c'', ground (arith, e, e'), h'')
