-- ===== src/Console/Scroll.antt =====
-- The loops of `_scroll` over the rows of the screen.
use akari.Prelude.{
  ℕ, ◌+◌, ◌-◌, ◌≤◌, ◌<◌, ◌≡◌, true, false, ap, sym, ◌∙◌, List, [], ◌++◌, arith, length,
  length-append, length-take, length-drop, length-replicate, replicate, take, drop,
  take-append-drop, drop-length, append-nil, get_elem?, get_elem?-take, get_elem?-drop, ltb, ok,
  same_cells, if◌then◌else◌, Bool-cases, inl, inr,
}
use akari.Stream.Buffer.{move_down-get}
use akari.Console.{Console, blank, fill, scroll_row, scroll_from, scroll}
use akari.Console.Fill.{fill-append}

-- The cursor is on the screen, which has its 25 rows of 80 cells.
pub record IsConsole (c : Console) : Type 0 where
  pub x : c.cursor_x < 80
  pub y : c.cursor_y < 25
  pub size : length c.vmem ≡ 2000

-- The screen a row further down.
abbrev pub scrolled : List ℕ → List ℕ
scrolled cells = drop 80 cells ++ replicate 80 blank

pub length-scrolled : (cells : List ℕ) → length cells ≡ 2000 → length (scrolled cells) ≡ 2000
length-scrolled cells e = omega (
  arith,
  e,
  length-append (drop 80 cells) (replicate 80 blank),
  length-drop 80 cells,
  length-replicate 80 blank,
)

scroll_row-scrolled :
    (c : Console)
    → length c.vmem ≡ 2000
    → scroll_row c ≡ ok (record c { vmem = scrolled c.vmem; cursor_y = c.cursor_y - 1 })
unfolding scroll_row
scroll_row-scrolled c e =
    let (cells, m, size, moved) = move_down-get c.vmem 0 80 1920 (omega (arith, e)) in
    let upper : take 1920 cells ≡ drop 80 c.vmem =
      same_cells (take 1920 cells) (drop 80 c.vmem)
        (omega (arith, e, size, length-take 1920 cells, length-drop 80 c.vmem))
        (λ i u.
          let v : i < 1920 = omega (arith, e, u, length-drop 80 c.vmem) in
          get_elem?-take 1920 cells i v
          ∙ moved i
          ∙ ap (get_elem? c.vmem) {y = 80 + i} (ground (arith, v))
          ∙ sym (get_elem?-drop 80 c.vmem i)) in
    let parts : cells ≡ drop 80 c.vmem ++ drop 1920 cells =
      sym (take-append-drop 1920 cells) ∙ ap (λ l. l ++ drop 1920 cells) upper in
    let filled =
      fill-append (drop 80 c.vmem) (drop 1920 cells) 1920 80
        (omega (arith, e, length-drop 80 c.vmem))
        (omega (arith, e, size, length-drop 1920 cells)) in
    let over : drop 80 (drop 1920 cells) ≡ [] =
      drop-length 80 (drop 1920 cells) (omega (arith, e, size, length-drop 1920 cells)) in
    let end : fill cells 1920 80 ≡ ok (scrolled c.vmem) =
      ap (λ l. fill l 1920 80) parts
      ∙ filled
      ∙ ap (λ l. ok (drop 80 c.vmem ++ (replicate 80 blank ++ l))) over
      ∙ ap (λ l. ok (drop 80 c.vmem ++ l)) (append-nil (replicate 80 blank)) in
    ground (arith, m, end)

-- On a screen of 2000 cells with the cursor on a row up to one past the last, `_scroll` ends: past the last
-- row it drops the first row, puts a blank one at the end and the cursor on it, and otherwise it does nothing.
pub scroll-scrolled :
    (c : Console)
    → length c.vmem ≡ 2000
    → c.cursor_y ≤ 25
    → scroll c
      ≡ ok (if ltb c.cursor_y 25 then c else record c { vmem = scrolled c.vmem; cursor_y = 24 })
unfolding scroll_from
scroll-scrolled c e u = elim (Bool-cases (ltb c.cursor_y 25)) [
  | inl above ↦
      let low : ltb 24 c.cursor_y ≡ false = ground (arith, above) in ground (arith, above, low)
  | inr below ↦
      let at : c.cursor_y ≡ 25 = ground (arith, below, u) in
      let row : ltb 24 c.cursor_y ≡ true = ground (arith, at) in
      let after : Console = record c { vmem = scrolled c.vmem; cursor_y = c.cursor_y - 1 } in
      let top : ltb 24 (c.cursor_y - 1) ≡ false = ground (arith, at) in
      let rest : scroll_from after c.cursor_y ≡ ok after =
        ap (scroll_from after) at ∙ ground (arith, top) in
      let same : after ≡ record c { vmem = scrolled c.vmem; cursor_y = 24 } =
        ap (λ y. record c { vmem = scrolled c.vmem; cursor_y = y }) {x = c.cursor_y - 1} {y = 24}
          (omega (arith, at)) in
      ground (arith, row, below, scroll_row-scrolled c e, rest, same)
]
