-- ===== src/Stream/Flow.antt =====
-- What is written to a stream reaches every listener, and what a listener reads is the front of what it
-- holds; a stream with an exclusive writer has no other.
use mathlib.Core.Bool.{true≢false}
use Prim.Native.Nat.{min}
use akari.Prelude.{
  ℕ, zero, suc, ◌+◌, ◌<◌, ◌≡◌, ◌≢◌, refl, ap, sym, ◌∙◌, Bool, true, false, ◌⊎◌, List, [], ◌∷◌, ◌++◌,
  map, Option, none, some, arith, take, drop, length, length-take, take-take, drop-length, ltb,
  ◌==◌, if◌then◌else◌, u32_mod, minus_one, ok, Bool-cases, inl, inr, All,
}
use akari.Stream.{
  Listener, Stream, append_all, read_stream, write_stream, has_writer, register_writer,
}
use akari.Stream.Buffer.{IsListener, Holds, held, contents, append-contents, cut-contents}

-- A read of a byte or more blocks, changing nothing, just when the listener holds no bytes; otherwise
-- it takes up to `n` bytes off the front, and at least one.
pub read_stream-contents :
    (l : Listener) (n : ℕ)
    → IsListener l
    → 0 < n
    → (contents l ≡ []) × (read_stream l n ≡ ok (none, l))
      ⊎ (out : List ℕ) × (l' : Listener) × (read_stream l n ≡ ok (some out, l'))
        × (0 < length out)
        × (out ≡ take n (contents l))
        × (contents l' ≡ drop n (contents l))
        × IsListener l'
unfolding read_stream
read_stream-contents l zero h p = absurd (omega (arith, p))
read_stream-contents l (suc n) h p = by_buffer l.buffer l.buflen h
  where
    by_buffer :
        (b : Option (List ℕ)) (m : ℕ)
        → Holds b m
        → (held b m ≡ [])
            × (read_stream (record l { buffer = b; buflen = m }) (suc n)
                ≡ ok (none, record l { buffer = b; buflen = m }))
          ⊎ (out : List ℕ) × (l' : Listener) × (read_stream
                (record l { buffer = b; buflen = m })
                (suc n)
              ≡ ok (some out, l'))
            × (0 < length out)
            × (out ≡ take (suc n) (held b m))
            × (contents l' ≡ drop (suc n) (held b m))
            × IsListener l'
    by_buffer none m h = inl (refl, ground (arith, h))
    by_buffer (some cells) m h =
        let len = if ltb (suc n) m then suc n else m in
        let (l', c, v, d, _, _) =
          cut-contents (record l { buffer = some cells; buflen = m }) len h in
        let front : take len cells ≡ take (suc n) (take m cells) =
          ap (λ k. take k cells) {x = len} {y = min (suc n) m} (ground arith)
          ∙ sym (take-take (suc n) m cells) in
        let back : drop len (take m cells) ≡ drop (suc n) (take m cells) =
          elim (Bool-cases (ltb (suc n) m)) [
            | inl less ↦
                ap (λ k. drop k (take m cells)) {x = len} {y = suc n} (ground (arith, less))
            | inr more ↦
                drop-length len (take m cells) (ground (arith, more, length-take m cells))
                ∙ sym
                    (drop-length (suc n) (take m cells) (ground (arith, more, length-take m cells)))
          ] in
        inr (
          take len cells,
          l',
          ground (arith, c, h.0, h.1),
          ground (arith, h.0, h.1, length-take len cells),
          front,
          d ∙ back,
          v,
        )

-- A write by a writer of the stream adds the bytes to what each listener holds, if all have the room.
pub append_all-contents :
    (ls : List Listener) (bytes : List ℕ)
    → All IsListener ls
    → All (λ l. l.buflen + length bytes < u32_mod) ls
    → (ls' : List Listener) × (woken : List ℕ) × (append_all ls bytes ≡ ok (ls', woken))
      × All IsListener ls'
      × (map contents ls' ≡ map (λ l. contents l ++ bytes) ls)
unfolding append_all
append_all-contents [] bytes v u = ([], [], refl, tt, refl)
append_all-contents (l ∷ ls) bytes v u =
    let (l', e, v', c, _, _) = append-contents l bytes v.0 u.0 in
    let (ls', woken, f, vs, cs) = append_all-contents ls bytes v.1 u.1 in
    let first : Option ℕ = if length bytes == 0 then none else l.hooked in
    (
      l' ∷ ls',
      elim first [ some task ↦ task ∷ woken | none ↦ woken ],
      ground (arith, e, f),
      (v', vs),
      ground (arith, c, cs),
    )

-- A write by one of a stream's writers adds the bytes to what each listener holds, if all have room
-- for them; a write by anyone else returns -1 and changes nothing.
pub write_stream-contents :
    (s : Stream) (writer : ℕ) (bytes : List ℕ)
    → All IsListener s.listeners
    → All (λ l. l.buflen + length bytes < u32_mod) s.listeners
    → ((ls' : List Listener) × (woken : List ℕ) × (write_stream s writer bytes
          ≡ ok (length bytes, record s { listeners = ls' }, woken))
        × All IsListener ls'
        × (map contents ls' ≡ map (λ l. contents l ++ bytes) s.listeners)
        × (has_writer s writer ≡ true))
      ⊎ (has_writer s writer ≡ false) × (write_stream s writer bytes ≡ ok (minus_one, s, []))
unfolding write_stream
write_stream-contents s writer bytes v u = elim (Bool-cases (has_writer s writer)) [
  | inl yes_writer ↦
      let (ls', woken, e, v', c) = append_all-contents s.listeners bytes v u in
      inl (ls', woken, ground (arith, e, yes_writer), v', c, yes_writer)
  | inr no_writer ↦ inr (no_writer, ground (arith, no_writer))
]

cons_not_nil : (w : ℕ) (ws : List ℕ) → w ∷ ws ≢ []
cons_not_nil w ws e = ground (arith, e)

-- An exclusive stream has one writer.
abbrev pub IsExclusive : Stream → Type 0
IsExclusive s = s.exclusive ≡ true → length s.writers ≡ 1

-- `registerWriter` keeps an exclusive stream to its one writer: it refuses any other, and refuses to be
-- exclusive beside other writers. An exclusive writer of a stream without writers becomes its one writer
-- and makes the stream exclusive; a writer that is not exclusive is put after the others.
pub register_writer-IsExclusive :
    (s : Stream) (exclusive : Bool)
    → IsExclusive s
    → let (id, s') = register_writer s exclusive in
      IsExclusive s'
      × (s.exclusive ≡ true → (id ≡ minus_one) × (s' ≡ s))
      × (s.exclusive ≡ false
          → exclusive ≡ true
          → 0 < length s.writers
          → (id ≡ minus_one) × (s' ≡ s))
      × (s.exclusive ≡ false
          → exclusive ≡ true
          → s.writers ≡ []
          → (s'.writers ≡ id ∷ []) × (s'.exclusive ≡ true))
      × (s.exclusive ≡ false
          → exclusive ≡ false
          → (s'.writers ≡ s.writers ++ id ∷ []) × (s'.exclusive ≡ false))
unfolding register_writer
register_writer-IsExclusive s exclusive = by_fields s.exclusive s.writers exclusive
  where
    by_fields :
        (held_alone : Bool) (ws : List ℕ) (exclusive : Bool)
        → (held_alone ≡ true → length ws ≡ 1)
        → let start : Stream = record s { exclusive = held_alone; writers = ws } in
          let (id, s') = register_writer start exclusive in
          IsExclusive s'
          × (held_alone ≡ true → (id ≡ minus_one) × (s' ≡ start))
          × (held_alone ≡ false
              → exclusive ≡ true
              → 0 < length ws
              → (id ≡ minus_one) × (s' ≡ start))
          × (held_alone ≡ false
              → exclusive ≡ true
              → ws ≡ []
              → (s'.writers ≡ id ∷ []) × (s'.exclusive ≡ true))
          × (held_alone ≡ false
              → exclusive ≡ false
              → (s'.writers ≡ ws ++ id ∷ []) × (s'.exclusive ≡ false))
    by_fields true ws exclusive h = (
      h,
      λ e. (refl, refl),
      λ e. absurd (true≢false e),
      λ e. absurd (true≢false e),
      λ e. absurd (true≢false e),
    )
    by_fields false [] true h = (
      λ e. refl,
      λ e. absurd (true≢false (sym e)),
      λ e f u. absurd (omega (arith, u)),
      λ e f n. (refl, refl),
      λ e f. absurd (true≢false f),
    )
    by_fields false (w ∷ ws) true h = (
      λ e. absurd (true≢false (sym e)),
      λ e. absurd (true≢false (sym e)),
      λ e f u. (refl, refl),
      λ e f n. absurd (cons_not_nil w ws n),
      λ e f. absurd (true≢false f),
    )
    by_fields false ws false h = (
      λ e. absurd (true≢false (sym e)),
      λ e. absurd (true≢false (sym e)),
      λ e f. absurd (true≢false (sym f)),
      λ e f. absurd (true≢false (sym f)),
      λ e f. (refl, refl),
    )
