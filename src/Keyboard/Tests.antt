-- ===== src/Keyboard/Tests.antt =====
-- Some keys pressed and let go.
use akari.Prelude.{
  ℕ, ◌<◌, ◌≤◌, ◌≡◌, ◌⊎◌, inl, inr, refl, true, false, length, List, [], ◌∷◌, ok, fault, panic,
  arith, replicate, test_bit, set_bit, clear_bit,
}
use akari.Keyboard.{
  main_start, Keyboard, Action, dispatch, leds, step, run, press, release, special, translate,
  update_at, shift_character, shifted_in, capslock_invert,
}
use akari.Keyboard.Held.{is_held, bit_of}
use akari.Keyboard.Bounds.{IsKeyboard, Steps, last_event, step-IsKeyboard, run-last_event}

abbrev no_keys : Keyboard
no_keys = main_start (replicate 16 0)

-- What the stack held is in the array.
abbrev dirty : Keyboard
dirty = main_start (replicate 16 0xA5)

no_keys-IsKeyboard : IsKeyboard no_keys
unfolding bit_of test_bit
no_keys-IsKeyboard = record { size = refl; ctrl = refl; alt = refl }

step-IsKeyboard_example :
    (Steps no_keys 0x1e × (0x1e < 90 ⊎ 128 ≤ 0x1e))
    ⊎ ((step no_keys 0x1e ≡ fault) × (90 ≤ 0x1e) × (0x1e < 128))
step-IsKeyboard_example = step-IsKeyboard no_keys 0x1e no_keys-IsKeyboard (omega arith)

-- Control and A are pressed, and A is let go.
abbrev ctrl_a : List ℕ
ctrl_a = 29 ∷ 0x1e ∷ 0x9e ∷ []

run-last_event_example :
    (actions : List Action) × (k' : Keyboard) × (run dirty ctrl_a ≡ ok (actions, k'))
    × (length k'.held_scancodes ≡ 16)
    × ((c : ℕ) → is_held k'.held_scancodes c ≡ last_event ctrl_a c (is_held dirty.held_scancodes c))
    × (k'.pressed_ctrl ≡ true)
    × (k'.pressed_alt ≡ false)
unfolding last_event
run-last_event_example = run-last_event dirty ctrl_a refl (
  (omega arith, inl (omega arith)),
  ((omega arith, inl (omega arith)), ((omega arith, inr (omega arith)), tt)),
)

-- What the scancodes send, with nothing for a fault.
abbrev sent : List ℕ → List Action
sent scancodes = elim (run no_keys scancodes) [ ok r ↦ r.0 | fault ↦ [] | panic ↦ [] ]

types : sent (42 ∷ 0x1e ∷ 0xaa ∷ 0x1e ∷ 2 ∷ []) ≡ dispatch b'A' ∷ dispatch b'a' ∷ dispatch b'1' ∷ []
unfolding run step press release special translate update_at set_bit clear_bit shift_character
    shifted_in
types = refl

-- The left shift key, let go, takes the right one's shift away.
loses_shift : sent (42 ∷ 54 ∷ 0xaa ∷ 2 ∷ []) ≡ dispatch b'1' ∷ []
unfolding run step press release special translate update_at set_bit clear_bit
loses_shift = refl

-- After caps lock, every key sets the LEDs again.
keeps_leds :
    sent (58 ∷ 0x1e ∷ 0x1e ∷ []) ≡ leds 4 ∷ dispatch b'A' ∷ leds 4 ∷ dispatch b'A' ∷ leds 4 ∷ []
unfolding run step press special translate update_at set_bit capslock_invert
keeps_leds = refl

past_table : step no_keys 90 ≡ fault
unfolding step press special translate update_at
past_table = refl
