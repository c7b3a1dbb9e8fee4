-- ===== src/Stream/Tests.antt =====
-- A stream with a writer and two listeners, and the theorems at it.
use akari.Prelude.{
  ℕ, ◌<◌, ◌≡◌, refl, true, false, ◌⊎◌, List, [], ◌∷◌, ◌++◌, map, none, some, arith, length,
  minus_one, All, ok,
}
use akari.Stream.{
  Listener, Stream, cut, move_down, read_stream, write_stream, has_writer, register_writer,
}
use akari.Stream.Buffer.{IsListener, contents}
use akari.Stream.Flow.{
  IsExclusive, read_stream-contents, write_stream-contents, register_writer-IsExclusive,
}

-- It holds 7, 8 and 9, in an array with a byte to spare.
abbrev three_bytes : Listener
three_bytes = record {
  listener_id = 2;
  buffer = some (7 ∷ 8 ∷ 9 ∷ 9 ∷ []);
  buflen = 3;
  hooked = some 5;
}

abbrev no_bytes : Listener
no_bytes = record { listener_id = 3; buffer = none; buflen = 0; hooked = none }

abbrev input : Stream
input = record {
  exclusive = true;
  writers = 1 ∷ [];
  listeners = three_bytes ∷ no_bytes ∷ [];
  wl_id = 3;
}

three_bytes-IsListener : IsListener three_bytes
three_bytes-IsListener = (omega arith, omega arith, omega arith)

cuts_two :
    cut three_bytes 2
    ≡ ok (record {
      listener_id = 2;
      buffer = some (9 ∷ 8 ∷ 9 ∷ 9 ∷ []);
      buflen = 1;
      hooked = some 5;
    })
unfolding cut move_down
cuts_two = refl

read_stream-contents_example :
    (contents three_bytes ≡ []) × (read_stream three_bytes 2 ≡ ok (none, three_bytes))
    ⊎ (out : List ℕ) × (l' : Listener) × (read_stream three_bytes 2 ≡ ok (some out, l'))
      × (0 < length out)
      × (out ≡ 7 ∷ 8 ∷ [])
      × (contents l' ≡ 9 ∷ [])
      × IsListener l'
read_stream-contents_example =
    read_stream-contents three_bytes 2 three_bytes-IsListener (omega arith)

write_stream-contents_example :
    ((ls' : List Listener) × (woken : List ℕ) × (write_stream input 1 (4 ∷ [])
        ≡ ok (1, record input { listeners = ls' }, woken))
      × All IsListener ls'
      × (map contents ls' ≡ (7 ∷ 8 ∷ 9 ∷ 4 ∷ []) ∷ (4 ∷ []) ∷ [])
      × (has_writer input 1 ≡ true))
    ⊎ (has_writer input 1 ≡ false) × (write_stream input 1 (4 ∷ []) ≡ ok (minus_one, input, []))
write_stream-contents_example =
    write_stream-contents input 1 (4 ∷ []) (three_bytes-IsListener, (refl, tt))
      (omega arith, (omega arith, tt))

register_writer-IsExclusive_example :
    let (id, s') = register_writer input false in
    IsExclusive s'
    × (input.exclusive ≡ true → (id ≡ minus_one) × (s' ≡ input))
    × (input.exclusive ≡ false
        → false ≡ true
        → 0 < length input.writers
        → (id ≡ minus_one) × (s' ≡ input))
    × (input.exclusive ≡ false
        → false ≡ true
        → input.writers ≡ []
        → (s'.writers ≡ id ∷ []) × (s'.exclusive ≡ true))
    × (input.exclusive ≡ false
        → false ≡ false
        → (s'.writers ≡ input.writers ++ id ∷ []) × (s'.exclusive ≡ false))
register_writer-IsExclusive_example = register_writer-IsExclusive input false (λ e. refl)
