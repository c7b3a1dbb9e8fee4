-- ===== src/Keyboard/Rounds.antt =====
-- A round of the keyboard driver: what it makes of the bit field and of the flags of control and alt.
use akari.Prelude.{
  ℕ, ◌-◌, ◌/◌, ◌%◌, ◌≤◌, ◌<◌, ◌≡◌, ◌≢◌, ◌⊎◌, inl, inr, ap, ◌∙◌, Bool, true, false, List, [], ◌∷◌,
  none, some, arith, get_elem?-lt, length, ltb, ◌==◌, if◌then◌else◌, set_bit, clear_bit,
  test_bit-set_bit, test_bit-clear_bit, ok, Option-cases,
}
use akari.Keyboard.{
  Keyboard, Action, dispatch, keyboard_us, release, released, translate, special, update_leds,
  press, step, shift_character, capslock_invert,
}
use akari.Keyboard.Held.{update_at-some, is_held, is_held-update}

-- What a round does to the keys that are held.
abbrev pub held_after : ℕ → ℕ → Bool → Bool
held_after scancode c before = if scancode % 128 == c then ltb scancode 128 else before

special-keeps :
    (k k' : Keyboard) (s : ℕ)
    → special k s ≡ some k'
    → (k'.held_scancodes ≡ k.held_scancodes)
      × (k'.pressed_ctrl ≡ (if s == 29 then true else k.pressed_ctrl))
      × (k'.pressed_alt ≡ (if s == 56 then true else k.pressed_alt))
unfolding special
special-keeps k k' s e = (ground (arith, e), ground (arith, e), ground (arith, e))

special-none : (k : Keyboard) (s : ℕ) → special k s ≡ none → (s ≢ 29) × (s ≢ 56)
unfolding special
special-none k s e = (ground (arith, e), ground (arith, e))

-- What a round does that presses a key, or lets it go.
record Follows (k k' : Keyboard) (s : ℕ) (down : Bool) : Type 0 where
  size : length k'.held_scancodes ≡ 16
  tells :
      (c : ℕ) → is_held k'.held_scancodes c ≡ (if s == c then down else is_held k.held_scancodes c)
  ctrl : k'.pressed_ctrl ≡ (if s == 29 then down else k.pressed_ctrl)
  alt : k'.pressed_alt ≡ (if s == 56 then down else k.pressed_alt)

-- A key that is pressed.
press-Follows :
    (k : Keyboard) (s : ℕ)
    → length k.held_scancodes ≡ 16
    → s < 90
    → (actions : List Action) × (k' : Keyboard) × (press k s ≡ ok (actions, k'))
      × Follows k k' s true
unfolding press translate
press-Follows k s z l =
    let within : s / 8 < length k.held_scancodes = ground (arith, z, l) in
    let (held, u, size) = update_at-some (λ b. set_bit b (s % 8)) k.held_scancodes (s / 8) within in
    let tells : (c : ℕ) → is_held held c ≡ (if s == c then true else is_held k.held_scancodes c) =
      λ c. is_held-update set_bit true test_bit-set_bit k.held_scancodes held s c within u in
    let k' : Keyboard = record k { held_scancodes = held } in
    let (char, g) = get_elem?-lt keyboard_us s l in
    elim (Option-cases (special k' s)) [
      | inl nothing ↦
          let (m, n) = special-none k' s nothing in
          let shifted = if k.pressed_shift then shift_character char else char in
          (
            dispatch (if k.capslock_down then capslock_invert shifted else shifted)
                ∷ update_leds k',
            k',
            ground (arith, u, nothing, g),
            record {
              size = size ∙ z;
              tells = tells;
              ctrl = ground (arith, m);
              alt = ground (arith, n);
            },
          )
      | inr r ↦
          let (k'', e) = r in
          let (same, c, a) = special-keeps k' k'' s e in
          (
            update_leds k'',
            k'',
            ground (arith, u, e),
            record {
              size = ap length same ∙ size ∙ z;
              tells = λ c. ap (λ h. is_held h c) same ∙ tells c;
              ctrl = c;
              alt = a;
            },
          )
    ]

release-Follows :
    (k : Keyboard) (s : ℕ)
    → length k.held_scancodes ≡ 16
    → s < 128
    → (k' : Keyboard) × (release k s ≡ ok k') × Follows k k' s false
unfolding release
release-Follows k s z l =
    let within : s / 8 < length k.held_scancodes = ground (arith, z, l) in
    let (held, u, size) =
      update_at-some (λ b. clear_bit b (s % 8)) k.held_scancodes (s / 8) within in
    let tells : (c : ℕ) → is_held held c ≡ (if s == c then false else is_held k.held_scancodes c) =
      λ c. is_held-update clear_bit false test_bit-clear_bit k.held_scancodes held s c within u in
    let k' : Keyboard = released (record k { held_scancodes = held }) s in
    let same : k'.held_scancodes ≡ held = ground arith in
    (
      k',
      ground (arith, u),
      record {
        size = ap length same ∙ size ∙ z;
        tells = λ c. ap (λ h. is_held h c) same ∙ tells c;
        ctrl = ground arith;
        alt = ground arith;
      },
    )

-- A round on a scancode, of any state of the flags.
pub record After (k k' : Keyboard) (s : ℕ) : Type 0 where
  pub size : length k'.held_scancodes ≡ 16
  pub tells : (c : ℕ) → is_held k'.held_scancodes c ≡ held_after s c (is_held k.held_scancodes c)
  pub ctrl : k'.pressed_ctrl ≡ held_after s 29 k.pressed_ctrl
  pub alt : k'.pressed_alt ≡ held_after s 56 k.pressed_alt

abbrev pub Within : ℕ → Type 0
Within s = s < 90 ⊎ 128 ≤ s

pub step-After :
    (k : Keyboard) (s : ℕ)
    → length k.held_scancodes ≡ 16
    → s < 256
    → Within s
    → (actions : List Action) × (k' : Keyboard) × (step k s ≡ ok (actions, k')) × After k k' s
unfolding step
step-After k s z l (inl low) =
    let (actions, k', e, f) = press-Follows k s z low in
    (
      actions,
      k',
      ground (arith, low, e),
      record {
        size = f.size;
        tells = λ c. f.tells c ∙ ground (arith, low);
        ctrl = f.ctrl ∙ ground (arith, low);
        alt = f.alt ∙ ground (arith, low);
      },
    )
step-After k s z l (inr up) =
    let (k', e, f) = release-Follows k (s - 0x80) z (omega (arith, l, up)) in
    (
      [],
      k',
      ground (arith, up, e),
      record {
        size = f.size;
        tells = λ c. f.tells c ∙ ground (arith, up, l);
        ctrl = f.ctrl ∙ ground (arith, up, l);
        alt = f.alt ∙ ground (arith, up, l);
      },
    )
