-- ===== src/Memory/FirstFree.antt =====
-- `freeFrame` finds the first frame that is not taken, and `allocAnyFrame` takes it.
use native.Mathlib.Decide.{ℕ_discrete}
use akari.Prelude.{
  ℕ, zero, suc, ◌+◌, ◌-◌, ◌*◌, ◌/◌, ◌≤◌, ◌<◌, ◌≡◌, ◌≢◌, refl, ap, sym, ◌∙◌, Bool, true, false, List,
  Option, none, some, arith, get_elem?, get_elem?-lt, ◌==◌, if◌then◌else◌, u32_mod, test_bit,
  clear_bit_exists, full_bit, ◌⊎◌, [], ◌∷◌, not, Bool-cases, inl, inr, ok, panic, All,
}
use akari.Memory.{
  FrameMap, Page, index_bit, offset_bit, free_bit, free_word, free_frame, alloc_any_frame,
}
use akari.Memory.Frames.{IsFrameMap, is_taken, covered, set_frame-is_taken}

-- What the search of a word from bit `j` on finds.
data FirstBit (word j : ℕ) : Option ℕ → Type 0 where
  no_bit : ((k : ℕ) → j ≤ k → k < 32 → test_bit word k ≡ true) → FirstBit word j none
  bit :
      (k : ℕ)
      → k < 32
      → test_bit word k ≡ false
      → ((l : ℕ) → j ≤ l → l < k → test_bit word l ≡ true)
      → FirstBit word j (some k)

FirstBit-step :
    {word j : ℕ} {o : Option ℕ}
    → test_bit word j ≡ true
    → FirstBit word (j + 1) o
    → FirstBit word j o
FirstBit-step {word} {j} t (no_bit h) = no_bit λ k l u. elim (ℕ_discrete j k) [
  | yes p ↦ ap (test_bit word) (sym p) ∙ t
  | no n ↦ h k (omega arith) u
]
FirstBit-step {word} {j} t (bit k u e h) = bit k u e λ l m v. elim (ℕ_discrete j l) [
  | yes p ↦ ap (test_bit word) (sym p) ∙ t
  | no n ↦ h l (omega arith) v
]

free_bit-FirstBit : (word j rounds : ℕ) → j + rounds ≡ 32 → FirstBit word j (free_bit word j rounds)
unfolding free_bit
free_bit-FirstBit word j zero n = no_bit λ k l u. absurd (omega arith)
free_bit-FirstBit word j (suc rounds) n = elim (Bool-cases (test_bit word j)) [
  | inl taken ↦ rw taken (FirstBit-step taken (free_bit-FirstBit word (j + 1) rounds (omega arith)))
  | inr free ↦ rw free (bit j (omega arith) free (λ l m v. absurd (omega arith)))
]

-- Every word is a u32.
abbrev pub WordsFit : List ℕ → Type 0
WordsFit = All (λ w. w < u32_mod)

-- The frame that a search from word `i` on returns: it is not taken, and those before it are.
pub record FirstFree (m : FrameMap) (from frame : ℕ) : Type 0 where
  pub free : is_taken m frame ≡ false
  pub inside : covered m frame ≡ true
  pub least : (k : ℕ) → from ≤ k → k < frame → is_taken m k ≡ true

in_word :
    (m : FrameMap) (i word frame : ℕ)
    → get_elem? m.frames i ≡ some word
    → index_bit frame ≡ i
    → is_taken m frame ≡ test_bit word (offset_bit frame)
unfolding is_taken
in_word m i word frame e p = ground (arith, ap (get_elem? m.frames) p)

-- A word that is not full has a bit that the search finds.
word_bit :
    (word : ℕ)
    → word < u32_mod
    → word ≢ u32_mod - 1
    → (k : ℕ) × (free_bit word 0 32 ≡ some k)
      × (k < 32)
      × (test_bit word k ≡ false)
      × ((l : ℕ) → l < k → test_bit word l ≡ true)
word_bit word fits n = found (free_bit word 0 32) (free_bit-FirstBit word 0 32 refl)
  where
    found :
        (o : Option ℕ)
        → FirstBit word 0 o
        → (k : ℕ) × (o ≡ some k)
          × (k < 32)
          × (test_bit word k ≡ false)
          × ((l : ℕ) → l < k → test_bit word l ≡ true)
    found _ (no_bit h) =
        let (k, l, e) = clear_bit_exists 32 word fits (λ full. n (omega (arith, full))) in
        absurd (ground (arith, h k (omega arith) l, e))
    found _ (bit k u e h) = (k, refl, u, e, λ l v. h l (omega arith) v)

-- What the search from word `i` on returns: the first free frame, or a panic when there is none.
abbrev Search : FrameMap → ℕ → ℕ → Type 0
Search m i rounds =
    ((frame : ℕ) × (free_word m.frames i rounds ≡ ok (frame * 0x1000)) × FirstFree m (i * 32) frame)
    ⊎ (free_word m.frames i rounds ≡ panic)
      × ((k : ℕ) → i * 32 ≤ k → covered m k ≡ true → is_taken m k ≡ true)

pub word_fits :
    (l : List ℕ) (i : ℕ) {word : ℕ} → WordsFit l → get_elem? l i ≡ some word → word < u32_mod
word_fits [] i h e = absurd (ground (arith, e))
word_fits (x ∷ l) zero h e = some_fits e
  where
    some_fits : {w : ℕ} → some x ≡ some w → w < u32_mod
    some_fits same = ground (arith, same, h.0)
word_fits (x ∷ l) (suc i) h e = word_fits l i h.1 e

-- The frames of a word, and those after them.
taken_from :
    (m : FrameMap) (i : ℕ) {frame : ℕ}
    → ((k : ℕ) → index_bit k ≡ i → is_taken m k ≡ true)
    → ((k : ℕ) → (i + 1) * 32 ≤ k → k < frame → is_taken m k ≡ true)
    → (k : ℕ) → i * 32 ≤ k
    → k < frame
    → is_taken m k ≡ true
taken_from m i here later k l u = elim (ℕ_discrete (index_bit k) i) [
  | yes p ↦ here k p
  | no n ↦ later k (omega (arith, n)) u
]

free_word-Search :
    (m : FrameMap) (i rounds : ℕ)
    → IsFrameMap m
    → WordsFit m.frames
    → i + rounds ≡ index_bit m.frame_count
    → Search m i rounds
unfolding free_word
free_word-Search m i zero v fit n = inr (refl, λ k l c. absurd (ground arith))
free_word-Search m i (suc rounds) v fit n =
    let (word, e) = get_elem?-lt m.frames i (omega (arith, v.words)) in
    elim (ℕ_discrete word (u32_mod - 1)) [
      | yes full ↦
          let taken : (k : ℕ) → index_bit k ≡ i → is_taken m k ≡ true = λ k p.
            in_word m i word k e p
            ∙ full_bit 32 word (offset_bit k) (omega (arith, full)) (omega arith) in
          elim (free_word-Search m (i + 1) rounds v fit (omega arith)) [
            | inl r ↦
                let (frame, f, first) = r in
                inl (
                  frame,
                  ground (arith, e, full, f),
                  record {
                    free = first.free;
                    inside = first.inside;
                    least = taken_from m i taken first.least;
                  },
                )
            | inr r ↦ inr (
              ground (arith, e, full, r.0),
              λ k l c.
                  taken_from m i {frame = suc k} taken (λ k' l' u. r.1 k' l' (ground arith)) k l
                    (omega arith),
            )
          ]
      | no part ↦
          let (k, f, u, t, h) = word_bit word (word_fits m.frames i fit e) part in
          let off : offset_bit (i * 32 + k) ≡ k = omega arith in
          inl (
            i * 32 + k,
            ground (arith, e, f, part, v.small),
            record {
              free = in_word m i word (i * 32 + k) e (omega arith) ∙ ap (test_bit word) off ∙ t;
              inside = ground arith;
              least = λ l p q. in_word m i word l e (omega arith) ∙ h (offset_bit l) (omega arith);
            },
          )
    ]

-- With a frame free, `freeFrame` returns the address of the first, and with none it panics.
pub free_frame-FirstFree :
    (m : FrameMap)
    → IsFrameMap m
    → WordsFit m.frames
    → ((frame : ℕ) × (free_frame m ≡ ok (frame * 0x1000)) × FirstFree m 0 frame)
      ⊎ (free_frame m ≡ panic) × ((k : ℕ) → covered m k ≡ true → is_taken m k ≡ true)
unfolding free_frame
free_frame-FirstFree m v fit =
    elim (free_word-Search m 0 (index_bit m.frame_count) v fit (omega arith)) [
      | inl r ↦ inl r
      | inr r ↦ inr (r.0, λ k c. r.1 k (omega arith) c)
    ]

-- `allocAnyFrame` of an empty page, with a frame free, maps the first that was free, takes it, and
-- takes no other.
pub alloc_any_frame-FirstFree :
    (p : Page) (m : FrameMap) (kernel writeable : Bool) (free : ℕ)
    → IsFrameMap m
    → WordsFit m.frames
    → p.page_address ≡ 0
    → covered m free ≡ true
    → is_taken m free ≡ false
    → (frame : ℕ) × (m' : FrameMap) × (alloc_any_frame p m kernel writeable
        ≡ ok (
          record p {
            present = true;
            readwrite = writeable;
            user = not kernel;
            page_address = frame;
          },
          m',
        ))
      × FirstFree m 0 frame
      × IsFrameMap m'
      × ((k : ℕ) → is_taken m' k ≡ (if frame == k then true else is_taken m k))
unfolding alloc_any_frame
alloc_any_frame-FirstFree p m kernel writeable free v fit empty c f =
    elim (free_frame-FirstFree m v fit) [
      | inl r ↦
          let (frame, e, first) = r in
          let page : (frame * 0x1000) / 0x1000 ≡ frame = omega arith in
          let (m', s, v', _, h) =
            set_frame-is_taken m (frame * 0x1000) v (ap (covered m) page ∙ first.inside) in
          (
            frame,
            m',
            ground (arith, e, s, empty),
            first,
            v',
            λ k. h k ∙ ap (λ x. if x == k then true else is_taken m k) page,
          )
      | inr r ↦ absurd (ground (arith, r.1 free c, f))
    ]
