-- ===== src/Keyboard.antt =====
-- packages/keyboard/main.cpp: the keyboard driver, from the scancodes that it reads at its port to the
-- bytes that it writes to the stream `input` and the LEDs that it sets.
pub mod Bounds
pub mod Held
pub mod Rounds
mod Tests
use akari.Prelude.{
  ℕ, zero, suc, ◌+◌, ◌-◌, ◌/◌, ◌%◌, ◌<◌, ◌≡◌, Bool, true, false, not, ◌&&◌, ◌||◌, List, [], ◌∷◌,
  ◌++◌, Option, none, some, get_elem?, length, ltb, leb, ◌==◌, if◌then◌else◌, test_bit, set_bit,
  clear_bit, Result, ok, fault, ◌>>=◌, or_fault,
}

-- The locals of `main`, but for `echo_mode`, which stays false.
pub record Keyboard : Type 0 where
  pub held_scancodes : List ℕ
  pub capslock_down : Bool
  pub numlock_down : Bool
  pub scrolllock_down : Bool
  pub pressed_ctrl : Bool
  pub pressed_alt : Bool
  pub pressed_shift : Bool
  pub must_update_leds : Bool

-- Where `main` starts: what the stack holds is in the array, which nothing clears.
abbrev pub main_start : List ℕ → Keyboard
main_start held_scancodes = record {
  held_scancodes = held_scancodes;
  capslock_down = false;
  numlock_down = false;
  scrolllock_down = false;
  pressed_ctrl = false;
  pressed_alt = false;
  pressed_shift = false;
  must_update_leds = false;
}

-- What a round sends: a byte to the stream, or the state of the LEDs to the port.
pub data Action : Type 0 where
  dispatch leds : ℕ → Action

abbrev pub keyboard_us : List ℕ
keyboard_us =
    0 ∷ 27 ∷ b'1' ∷ b'2' ∷ b'3' ∷ b'4' ∷ b'5' ∷ b'6' ∷ b'7' ∷ b'8' ∷ b'9' ∷ b'0' ∷ b'-' ∷ b'-' ∷ 8
    ∷ 9 ∷ b'q' ∷ b'w' ∷ b'e' ∷ b'r' ∷ b't' ∷ b'y' ∷ b'u' ∷ b'i' ∷ b'o' ∷ b'p' ∷ b'[' ∷ b']' ∷ 10 ∷ 0
    ∷ b'a' ∷ b's' ∷ b'd' ∷ b'f' ∷ b'g' ∷ b'h' ∷ b'j' ∷ b'k' ∷ b'l' ∷ b';' ∷ 39 ∷ b'`' ∷ 0 ∷ 92
    ∷ b'z' ∷ b'x' ∷ b'c' ∷ b'v' ∷ b'b' ∷ b'n' ∷ b'm' ∷ b',' ∷ b'.' ∷ b'/' ∷ 0 ∷ b'*' ∷ 0 ∷ b' ' ∷ 0
    ∷ 0 ∷ 0 ∷ 0 ∷ 0 ∷ 0 ∷ 0 ∷ 0 ∷ 0 ∷ 0 ∷ 0 ∷ 0 ∷ 0 ∷ 0 ∷ 0 ∷ 0 ∷ b'-' ∷ 0 ∷ 0 ∷ 0 ∷ b'+' ∷ 0 ∷ 0
    ∷ 0 ∷ 0 ∷ 0 ∷ 0 ∷ 0 ∷ 0 ∷ 0 ∷ 0 ∷ 0 ∷ []

abbrev pub keyboard_us_shift_table : List ℕ
keyboard_us_shift_table =
    b'`' ∷ b'~' ∷ b'1' ∷ b'!' ∷ b'2' ∷ b'@' ∷ b'3' ∷ b'#' ∷ b'4' ∷ b'$' ∷ b'5' ∷ b'%' ∷ b'6' ∷ b'^'
    ∷ b'7' ∷ b'&' ∷ b'8' ∷ b'*' ∷ b'9' ∷ b'(' ∷ b'0' ∷ b')' ∷ b'-' ∷ b'_' ∷ b'=' ∷ b'+' ∷ b'['
    ∷ b'{' ∷ b']' ∷ b'}' ∷ 92 ∷ b'|' ∷ b';' ∷ b':' ∷ 39 ∷ 34 ∷ b',' ∷ b'<' ∷ b'.' ∷ b'>' ∷ b'/'
    ∷ b'?' ∷ 0 ∷ []

-- The loop of `shiftCharacter` over the table, two entries at a time up to a NUL.
unfoldable pub shifted_in : List ℕ → ℕ → ℕ
shifted_in [] c = c
shifted_in (p ∷ []) c = c
shifted_in (p ∷ q ∷ table) c =
    let rest = shifted_in table c in if p == 0 then c else (if p == c then q else rest)

unfoldable pub shift_character : ℕ → ℕ
shift_character c =
    if leb b'a' c && leb c b'z' then c - 0x20 else shifted_in keyboard_us_shift_table c

unfoldable pub capslock_invert : ℕ → ℕ
capslock_invert c =
    if leb b'a' c && leb c b'z'
    then c - 0x20
    else (if leb b'A' c && leb c b'Z' then c + 0x20 else c)

-- An assignment to an element of an array.
unfoldable pub update_at : (ℕ → ℕ) → List ℕ → ℕ → Option (List ℕ)
update_at f [] i = none
update_at f (x ∷ xs) zero = some (f x ∷ xs)
update_at f (x ∷ xs) (suc i) = elim (update_at f xs i) [ none ↦ none | some ys ↦ some (x ∷ ys) ]

-- The modifiers that are let go.
abbrev pub released : Keyboard → ℕ → Keyboard
released k scancode =
    if scancode == 29
    then record k { pressed_ctrl = false }
    else (if scancode == 42 || scancode == 54
        then record k { pressed_shift = false }
        else (if scancode == 56 then record k { pressed_alt = false } else k))

-- The branch of a scancode with the bit 0x80, which is taken off first.
unfoldable pub release : Keyboard → ℕ → Result Keyboard
release k scancode = do
  held ← or_fault (update_at (λ b. clear_bit b (scancode % 8)) k.held_scancodes (scancode / 8))
  ok (released (record k { held_scancodes = held }) scancode)

-- The byte that a scancode comes to.
unfoldable pub translate : Keyboard → ℕ → Result ℕ
translate k scancode = do
  c ← or_fault (get_elem? keyboard_us scancode)
  let shifted = if k.pressed_shift then shift_character c else c
  ok (if k.capslock_down then capslock_invert shifted else shifted)

-- The keys that have a branch of their own.
unfoldable pub special : Keyboard → ℕ → Option Keyboard
special k scancode =
    if scancode == 29
    then some (record k { pressed_ctrl = true })
    else (if scancode == 42 || scancode == 54
        then some (record k { pressed_shift = true })
        else (if scancode == 56
            then some (record k { pressed_alt = true })
            else (if scancode == 58
                then some
                    (record k { capslock_down = not k.capslock_down; must_update_leds = true })
                else (if scancode == 69
                    then some
                        (record k { numlock_down = not k.numlock_down; must_update_leds = true })
                    else (if scancode == 70
                        then some (record k {
                          scrolllock_down = not k.scrolllock_down;
                          must_update_leds = true;
                        })
                        else none)))))

abbrev pub led_byte : Keyboard → ℕ
led_byte k =
    (if k.scrolllock_down then 1 else 0)
    + (if k.numlock_down then 2 else 0)
    + (if k.capslock_down then 4 else 0)

-- The LEDs, which follow each key once `mustUpdateLEDs` is set: nothing resets it.
abbrev pub update_leds : Keyboard → List Action
update_leds k = if k.must_update_leds then leds (led_byte k) ∷ [] else []

-- The branch of the other scancodes.
unfoldable pub press : Keyboard → ℕ → Result (List Action × Keyboard)
press k scancode = do
  held ← or_fault (update_at (λ b. set_bit b (scancode % 8)) k.held_scancodes (scancode / 8))
  let k' : Keyboard = record k { held_scancodes = held }
  elim (special k' scancode) [
    | some k'' ↦ ok (update_leds k'', k'')
    | none ↦ do c ← translate k' scancode; ok (dispatch c ∷ update_leds k', k')
  ]

-- A round of the loop of `main`.
unfoldable pub step : Keyboard → ℕ → Result (List Action × Keyboard)
step k scancode =
    if leb 0x80 scancode
    then (release k (scancode - 0x80) >>= (λ k'. ok ([], k')))
    else press k scancode

-- The rounds for the scancodes that come in, one after the other.
unfoldable pub run : Keyboard → List ℕ → Result (List Action × Keyboard)
run k [] = ok ([], k)
run k (scancode ∷ rest) = do
  (actions, k') ← step k scancode
  (after, k'') ← run k' rest
  ok (actions ++ after, k'')
