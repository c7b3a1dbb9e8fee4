-- ===== src/Stream/Buffer.antt =====
-- What a listener holds: `append` adds at its end and `cut` drops from its front, though both work on an
-- array in place.
use native.Mathlib.Decide.{ℕ_discrete}
use akari.Prelude.{
  ℕ, zero, suc, ◌+◌, ◌-◌, ◌≤◌, ◌<◌, ◌≡◌, refl, ap, sym, ◌∙◌, ◌&&◌, List, [], ◌∷◌, ◌++◌, Option,
  none, some, arith, get_elem?, set, take, drop, length, length-take, length-drop, length-append,
  length-set, get_elem?-lt, get_elem?-take, get_elem?-drop, get_elem?-set_self, get_elem?-set_ne,
  same_cells, take-length, append-nil, drop-length, ltb, leb, ◌==◌, if◌then◌else◌, add32, u32_mod,
  ok, Bool-cases, inl, inr,
}
use akari.Stream.{Listener, append, grow, cut, move_down}

abbrev pub Holds : Option (List ℕ) → ℕ → Type 0
Holds none n = n ≡ 0
Holds (some cells) n = (0 < n) × (n ≤ length cells) × (n < u32_mod)

-- A buffer is there just when bytes are held, and it has room for them.
abbrev pub IsListener : Listener → Type 0
IsListener l = Holds l.buffer l.buflen

abbrev pub held : Option (List ℕ) → ℕ → List ℕ
held none n = []
held (some cells) n = take n cells

-- The bytes that a listener has still to read.
abbrev pub contents : Listener → List ℕ
contents l = held l.buffer l.buflen

pub length-contents : (l : Listener) → IsListener l → length (contents l) ≡ l.buflen
length-contents l = by_buffer l.buffer l.buflen
  where
    by_buffer : (b : Option (List ℕ)) (n : ℕ) → Holds b n → length (held b n) ≡ n
    by_buffer none n h = sym h
    by_buffer (some cells) n h = omega (arith, h.1, length-take n cells)

-- `append` adds the bytes at the end, as long as their number stays a u32; it unblocks the hooked
-- task unless there are no bytes.
pub append-contents :
    (l : Listener) (bytes : List ℕ)
    → IsListener l
    → l.buflen + length bytes < u32_mod
    → (l' : Listener) × (append l bytes ≡ ok (l', if length bytes == 0 then none else l.hooked))
      × IsListener l'
      × (contents l' ≡ contents l ++ bytes)
      × (l'.listener_id ≡ l.listener_id)
      × (l'.hooked ≡ l.hooked)
unfolding append grow
append-contents l bytes = by_buffer l.buffer l.buflen bytes
  where
    by_buffer :
        (b : Option (List ℕ)) (n : ℕ) (bytes : List ℕ)
        → Holds b n
        → n + length bytes < u32_mod
        → (l' : Listener) × (append (record l { buffer = b; buflen = n }) bytes
            ≡ ok (l', if length bytes == 0 then none else l.hooked))
          × IsListener l'
          × (contents l' ≡ held b n ++ bytes)
          × (l'.listener_id ≡ l.listener_id)
          × (l'.hooked ≡ l.hooked)
    by_buffer b n [] h u = (
      record l { buffer = b; buflen = n },
      ground arith,
      h,
      sym (append-nil (held b n)),
      refl,
      refl,
    )
    by_buffer none n (byte ∷ bytes) h u = (
      record l { buffer = some (byte ∷ bytes); buflen = length (byte ∷ bytes) },
      ground arith,
      (omega arith, omega arith, omega (arith, u)),
      take-length (byte ∷ bytes),
      refl,
      refl,
    )
    by_buffer (some cells) n (byte ∷ bytes) h u =
        let all = take n cells ++ byte ∷ bytes in
        let size : length all ≡ n + suc (length bytes) =
          omega (arith, h.1, length-append (take n cells) (byte ∷ bytes), length-take n cells) in
        (
          record l { buffer = some all; buflen = add32 n (suc (length bytes)) },
          ground (arith, h.1, u),
          (omega (arith, u), omega (arith, u, size), omega arith),
          ap (λ m. take m all) (omega (arith, u, size)) ∙ take-length all,
          refl,
          refl,
        )

-- The copying loop moves the cells from `n` places on down, and keeps the rest.
pub move_down-get :
    (cells : List ℕ) (wp n rm : ℕ)
    → wp + n + rm ≤ length cells
    → (cells' : List ℕ) × (move_down cells wp (wp + n) rm ≡ ok cells')
      × (length cells' ≡ length cells)
      × ((i : ℕ)
          → get_elem? cells' i ≡ get_elem? cells (if leb wp i && ltb i (wp + rm) then i + n else i))
unfolding move_down
move_down-get cells wp n zero u = (cells, refl, refl, λ i. ap (get_elem? cells) (ground arith))
move_down-get cells wp n (suc rm) u =
    let (byte, e) = get_elem?-lt cells (wp + n) (omega (arith, u)) in
    let (cells', m, size, h) =
      move_down-get (set cells wp byte) (wp + 1) n rm
        (omega (arith, u, length-set cells wp byte)) in
    let next : (wp + 1) + n ≡ (wp + n) + 1 = omega arith in
    (
      cells',
      ground (arith, e, m, ap (λ r. move_down (set cells wp byte) (wp + 1) r rm) next),
      size ∙ length-set cells wp byte,
      λ i. h i ∙ cell byte e i (ℕ_discrete wp i),
    )
  where
    cell :
        (byte : ℕ)
        → get_elem? cells (wp + n) ≡ some byte
        → (i : ℕ) → Dec (wp ≡ i)
        → get_elem?
            (set cells wp byte)
            (if leb (wp + 1) i && ltb i ((wp + 1) + rm) then i + n else i)
          ≡ get_elem? cells (if leb wp i && ltb i (wp + suc rm) then i + n else i)
    cell byte e i (yes q) =
        ap (get_elem? (set cells wp byte)) {y = wp} (ground (arith, q))
        ∙ get_elem?-set_self cells wp byte (omega (arith, u))
        ∙ sym e
        ∙ ap (get_elem? cells) (ground (arith, q))
    cell byte e i (no q) =
        get_elem?-set_ne cells byte (ground (arith, q)) ∙ ap (get_elem? cells) (ground (arith, q))

-- `cut` drops as many bytes from the front as there are, up to `n`.
pub cut-contents :
    (l : Listener) (n : ℕ)
    → IsListener l
    → (l' : Listener) × (cut l n ≡ ok l')
      × IsListener l'
      × (contents l' ≡ drop n (contents l))
      × (l'.listener_id ≡ l.listener_id)
      × (l'.hooked ≡ l.hooked)
unfolding cut
cut-contents l n = by_buffer l.buffer l.buflen
  where
    by_buffer :
        (b : Option (List ℕ)) (m : ℕ)
        → Holds b m
        → (l' : Listener) × (cut (record l { buffer = b; buflen = m }) n ≡ ok l')
          × IsListener l'
          × (contents l' ≡ drop n (held b m))
          × (l'.listener_id ≡ l.listener_id)
          × (l'.hooked ≡ l.hooked)
    by_buffer none m h = (
      record l { buffer = none; buflen = m },
      refl,
      h,
      sym (drop-length n [] (omega arith)),
      refl,
      refl,
    )
    by_buffer (some cells) m h = elim (Bool-cases (leb m n)) [
      | inl all ↦ (
        record l { buffer = none; buflen = 0 },
        ground (arith, all),
        refl,
        sym (drop-length n (take m cells) (ground (arith, all, length-take m cells))),
        refl,
        refl,
      )
      | inr part ↦
          let (cells', e, size, moved) =
            move_down-get cells 0 n (m - n) (ground (arith, part, h.1)) in
          let start : n ≡ 0 + n = omega arith in
          let few : n < m = ground (arith, part) in
          (
            record l { buffer = some cells'; buflen = m - n },
            ground (arith, part, e, ap (λ r. move_down cells 0 r (m - n)) start),
            (omega (arith, few), omega (arith, h.1, size), omega (arith, h.2)),
            same_cells (take (m - n) cells') (drop n (take m cells))
                (omega (
                  arith,
                  h.1,
                  size,
                  length-take (m - n) cells',
                  length-drop n (take m cells),
                  length-take m cells,
                ))
                (λ i u.
                  let v : i < m - n =
                    omega (arith, u, length-drop n (take m cells), length-take m cells) in
                  get_elem?-take (m - n) cells' i v
                  ∙ moved i
                  ∙ ap (get_elem? cells) {y = n + i} (ground (arith, v))
                  ∙ sym (get_elem?-take m cells (n + i) (omega (arith, v)))
                  ∙ sym (get_elem?-drop n (take m cells) i)),
            refl,
            refl,
          )
    ]
