-- ===== src/Keyboard/Bounds.antt =====
-- The arrays and the flags of the keyboard driver over a round, and over many.
use akari.Prelude.{
  ℕ, zero, suc, ◌/◌, ◌%◌, ◌≤◌, ◌<◌, ◌≡◌, ◌⊎◌, inl, inr, refl, ap, sym, ◌∙◌, Bool, List, [], ◌∷◌,
  ◌++◌, none, arith, get_elem?, All, length, ltb, leb, set_bit, ok, fault, Bool-cases,
}
use akari.Keyboard.{Keyboard, Action, keyboard_us, translate, special, press, step, run}
use akari.Keyboard.Held.{update_at-some, is_held}
use akari.Keyboard.Rounds.{held_after, After, Within, step-After}

-- The bit field has its 16 bytes, and says of the keys that have a flag what the flag says.
pub record IsKeyboard (k : Keyboard) : Type 0 where
  pub size : length k.held_scancodes ≡ 16
  pub ctrl : k.pressed_ctrl ≡ is_held k.held_scancodes 29
  pub alt : k.pressed_alt ≡ is_held k.held_scancodes 56

abbrev pub Steps : Keyboard → ℕ → Type 0
Steps k scancode =
    (actions : List Action) × (k' : Keyboard) × (step k scancode ≡ ok (actions, k'))
    × IsKeyboard k'
    × ((c : ℕ) → is_held k'.held_scancodes c ≡ held_after scancode c (is_held k.held_scancodes c))

After-IsKeyboard : (k k' : Keyboard) (s : ℕ) → IsKeyboard k → After k k' s → IsKeyboard k'
After-IsKeyboard k k' s h a = record {
  size = a.size;
  ctrl = a.ctrl ∙ ap (held_after s 29) h.ctrl ∙ sym (a.tells 29);
  alt = a.alt ∙ ap (held_after s 56) h.alt ∙ sym (a.tells 56);
}

get_elem?-ge {ℓ} : {A : Type ℓ} (xs : List A) (i : ℕ) → length xs ≤ i → get_elem? xs i ≡ none
get_elem?-ge [] i l = refl
get_elem?-ge (x ∷ xs) zero l = absurd (omega (arith, l))
get_elem?-ge (x ∷ xs) (suc i) l = get_elem?-ge xs i (omega (arith, l))

press-fault : (k : Keyboard) (s : ℕ) → IsKeyboard k → 90 ≤ s → s < 128 → press k s ≡ fault
unfolding press translate special
press-fault k s h a b =
    let within : s / 8 < length k.held_scancodes = ground (arith, h.size, b) in
    let (held, u, size) = update_at-some (λ b. set_bit b (s % 8)) k.held_scancodes (s / 8) within in
    let past : get_elem? keyboard_us s ≡ none = get_elem?-ge keyboard_us s a in
    ground (arith, u, past, a)

-- A round on a scancode keeps to the arrays, and the flags of control and alt true to the keys that are
-- held, unless a key from 90 up is pressed: then the table of characters is read past its end.
pub step-IsKeyboard :
    (k : Keyboard) (scancode : ℕ)
    → IsKeyboard k
    → scancode < 256
    → (Steps k scancode × (scancode < 90 ⊎ 128 ≤ scancode))
      ⊎ ((step k scancode ≡ fault) × (90 ≤ scancode) × (scancode < 128))
unfolding step
step-IsKeyboard k s h l = elim (Bool-cases (leb 0x80 s)) [
  | inl up ↦ inl (steps (inr (ground (arith, up))), inr (ground (arith, up)))
  | inr down ↦ elim (Bool-cases (ltb s 90)) [
    | inl low ↦ inl (steps (inl (ground (arith, low))), inl (ground (arith, low)))
    | inr high ↦
        let a : 90 ≤ s = ground (arith, high) in
        let b : s < 128 = ground (arith, down) in
        inr (ground (arith, down, press-fault k s h a b), a, b)
  ]
]
  where
    steps : Within s → Steps k s
    steps w =
        let (actions, k', e, a) = step-After k s h.size l w in
        (actions, k', e, After-IsKeyboard k k' s h a, a.tells)

-- Whether a key is held after some scancodes: as the last of them that is its own says.
unfoldable pub last_event : List ℕ → ℕ → Bool → Bool
last_event [] c before = before
last_event (s ∷ rest) c before = last_event rest c (held_after s c before)

-- The scancodes of the keys that the table of characters has.
abbrev pub IsScancode : ℕ → Type 0
IsScancode s = (s < 256) × (s < 90 ⊎ 128 ≤ s)

-- From any state with an array of 16 bytes, whatever these and the flags are, and after any scancodes of the
-- table's keys, the bit field says of each key what its last scancode says, and the flags of control and
-- alt what the last scancode of their key says. A key without a scancode among them is as before.
pub run-last_event :
    (k : Keyboard) (scancodes : List ℕ)
    → length k.held_scancodes ≡ 16
    → All IsScancode scancodes
    → (actions : List Action) × (k' : Keyboard) × (run k scancodes ≡ ok (actions, k'))
      × (length k'.held_scancodes ≡ 16)
      × ((c : ℕ)
          → is_held k'.held_scancodes c ≡ last_event scancodes c (is_held k.held_scancodes c))
      × (k'.pressed_ctrl ≡ last_event scancodes 29 k.pressed_ctrl)
      × (k'.pressed_alt ≡ last_event scancodes 56 k.pressed_alt)
unfolding run last_event
run-last_event k [] z all = ([], k, refl, z, λ c. refl, refl, refl)
run-last_event k (s ∷ rest) z ((l, fine), more) =
    let (actions, k', e, a) = step-After k s z l fine in
    let (after, k'', e', z', tells, ctrl, alt) = run-last_event k' rest a.size more in
    (
      actions ++ after,
      k'',
      ground (arith, e, e'),
      z',
      λ c. tells c ∙ ap (last_event rest c) (a.tells c),
      ctrl ∙ ap (last_event rest 29) a.ctrl,
      alt ∙ ap (last_event rest 56) a.alt,
    )
