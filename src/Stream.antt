-- ===== src/Stream.antt =====
-- The streams of Tasks.cpp and inc/Tasks.hpp, and `ReadStreamCall` of UserIPC.cpp: writers put bytes into
-- the buffer of every listener, and each listener reads its own.
pub mod Buffer
pub mod Flow
mod Tests
use akari.Prelude.{
  ℕ, zero, suc, ◌+◌, ◌-◌, Bool, true, false, not, ◌&&◌, List, [], ◌∷◌, ◌++◌, Option, none, some,
  get_elem?, set, take, length, ltb, leb, ◌==◌, if◌then◌else◌, add32, minus_one, u32_mod, Result,
  ok, panic, fault, ◌>>=◌, or_fault,
}

-- `Stream::Listener`. The buffer is the allocated array, of which the first `buflen` bytes are held;
-- `hooked` is the id of the task to wake.
pub record Listener : Type 0 where
  pub listener_id : ℕ
  pub buffer : Option (List ℕ)
  pub buflen : ℕ
  pub hooked : Option ℕ

unfoldable pub new_listener : ℕ → Listener
new_listener id = record { listener_id = id; buffer = none; buflen = 0; hooked = none }

-- The array that `append` allocates and fills. It is too small when the sum wraps around.
unfoldable pub grow : List ℕ → ℕ → List ℕ → Result (List ℕ)
grow cells buflen bytes =
    if ltb (buflen + length bytes) u32_mod
    then (if leb buflen (length cells) then ok (take buflen cells ++ bytes) else fault)
    else fault

-- `append`, with the task whose read is unblocked.
unfoldable pub append : Listener → List ℕ → Result (Listener × Option ℕ)
append l [] = ok (l, none)
append l (byte ∷ bytes) = elim l.buffer [
  | none ↦ ok (record l { buffer = some (byte ∷ bytes); buflen = length (byte ∷ bytes) }, l.hooked)
  | some cells ↦ do
    cells' ← grow cells l.buflen (byte ∷ bytes)
    ok (
      record l { buffer = some cells'; buflen = add32 l.buflen (length (byte ∷ bytes)) },
      l.hooked,
    )
]

unfoldable pub reset : Listener → Listener
reset l = elim l.buffer [ some cells ↦ record l { buffer = none; buflen = 0 } | none ↦ l ]

-- The copying loop of `cut`: `*wp++ = *rp++`, `rm` times.
unfoldable pub move_down : List ℕ → ℕ → ℕ → ℕ → Result (List ℕ)
move_down cells wp rp zero = ok cells
move_down cells wp rp (suc rm) = do
  byte ← or_fault (get_elem? cells rp)
  move_down (set cells wp byte) (wp + 1) (rp + 1) rm

unfoldable pub cut : Listener → ℕ → Result Listener
cut l n = elim l.buffer [
  | none ↦ ok l
  | some cells ↦
      let moved : Result Listener =
        move_down cells 0 n (l.buflen - n)
        >>= (λ cells'. ok (record l { buffer = some cells'; buflen = l.buflen - n })) in
      if leb l.buflen n then ok (record l { buffer = none; buflen = 0 }) else moved
]

abbrev pub hook : Listener → ℕ → Listener
hook l task = record l { hooked = some task }

abbrev pub unhook : Listener → Listener
unhook l = record l { hooked = none }

-- `ReadStreamCall::operator()` of up to `n` bytes: the bytes copied to the caller's buffer, whose number
-- is returned, or none when the call would block.
unfoldable pub read_stream : Listener → ℕ → Result (Option (List ℕ) × Listener)
read_stream l zero = ok (some [], l)
read_stream l (suc n) = elim l.buffer [
  | none ↦ if l.buflen == 0 then ok (none, l) else fault
  | some cells ↦
      let len = if ltb (suc n) l.buflen then suc n else l.buflen in
      let copied : Result (Option (List ℕ) × Listener) =
        if leb len (length cells)
        then cut l len >>= (λ l'. ok (some (take len cells), l'))
        else fault in
      if l.buflen == 0 then ok (none, l) else copied
]

-- `Stream`. The listeners and writers have ids from one counter.
pub record Stream : Type 0 where
  pub exclusive : Bool
  pub writers : List ℕ
  pub listeners : List Listener
  pub wl_id : ℕ

abbrev pub new_stream : Stream
new_stream = record { exclusive = false; writers = []; listeners = []; wl_id = 0 }

abbrev has_writers : List ℕ → Bool
has_writers [] = false
has_writers (w ∷ ws) = true

-- `registerWriter`, where -1 is a refusal.
unfoldable pub register_writer : Stream → Bool → ℕ × Stream
register_writer s exclusive =
    let id = add32 s.wl_id 1 in
    let added : Stream = record s {
      exclusive = exclusive;
      writers = s.writers ++ id ∷ [];
      wl_id = id;
    } in
    if s.exclusive
    then (minus_one, s)
    else (if exclusive && has_writers s.writers then (minus_one, s) else (id, added))

unfoldable pub register_listener : Stream → ℕ × Stream
register_listener s =
    let id = add32 s.wl_id 1 in
    (id, record s { listeners = s.listeners ++ new_listener id ∷ []; wl_id = id })

unfoldable pub find_listener : List Listener → ℕ → Result Listener
find_listener [] id = panic
find_listener (l ∷ ls) id = if l.listener_id == id then ok l else find_listener ls id

unfoldable pub get_listener : Stream → ℕ → Result Listener
get_listener s id = find_listener s.listeners id

unfoldable pub has_id : List ℕ → ℕ → Bool
has_id [] id = false
has_id (w ∷ ws) id = if w == id then true else has_id ws id

abbrev pub has_writer : Stream → ℕ → Bool
has_writer s id = has_id s.writers id

-- `writeAllListeners`, with the tasks that are unblocked, in order.
unfoldable pub append_all : List Listener → List ℕ → Result (List Listener × List ℕ)
append_all [] bytes = ok ([], [])
append_all (l ∷ ls) bytes = do
  (l', woken) ← append l bytes
  (ls', rest) ← append_all ls bytes
  ok (l' ∷ ls', elim woken [ some task ↦ task ∷ rest | none ↦ rest ])

-- `writeStream` to a stream that was found: -1 for a writer it does not have.
unfoldable pub write_stream : Stream → ℕ → List ℕ → Result (ℕ × Stream × List ℕ)
write_stream s writer bytes =
    let written =
      append_all s.listeners bytes
      >>= (λ r. ok (length bytes, record s { listeners = r.0 }, r.1)) in
    if has_writer s writer then written else ok (minus_one, s, [])
