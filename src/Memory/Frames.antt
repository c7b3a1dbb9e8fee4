-- ===== src/Memory/Frames.antt =====
-- The frame bitmap as a set of frames.
use native.Mathlib.Decide.{ℕ_discrete}
use akari.Prelude.{
  ℕ, ◌+◌, ◌*◌, ◌/◌, ◌≤◌, ◌<◌, ◌≡◌, refl, Bool, true, false, some, arith, get_elem?, set, length,
  length-set, get_elem?-lt, get_elem?-bound, ap, ◌∙◌, get_elem?-set_self, get_elem?-set_ne, ltb,
  ◌==◌, if◌then◌else◌, test_bit, set_bit, clear_bit, test_bit-set_bit, test_bit-clear_bit, ok,
}
use akari.Memory.{FrameMap, index_bit, offset_bit, set_frame, clear_frame, test_frame}

-- A word for each 32 frames.
pub record IsFrameMap (m : FrameMap) : Type 0 where
  pub words : index_bit m.frame_count ≤ length m.frames
  pub small : m.frame_count ≤ 0x100000

-- The frames that the tests and searches cover: whole words of them.
abbrev pub covered : FrameMap → ℕ → Bool
covered m frame = ltb (index_bit frame) (index_bit m.frame_count)

-- Whether a frame is taken.
unfoldable pub is_taken : FrameMap → ℕ → Bool
is_taken m frame = elim (get_elem? m.frames (index_bit frame)) [
  | some word ↦ test_bit word (offset_bit frame)
  | _ ↦ false
]

pub test_frame-is_taken :
    (m : FrameMap) (addr : ℕ)
    → IsFrameMap m
    → covered m (addr / 0x1000) ≡ true
    → test_frame m addr ≡ ok (is_taken m (addr / 0x1000))
unfolding test_frame is_taken
test_frame-is_taken m addr v c =
    let (word, e) = get_elem?-lt m.frames (index_bit (addr / 0x1000)) (ground (arith, v.words)) in
    ground (arith, e)

-- The frames after one word is written.
is_taken-set :
    (m : FrameMap) (i off word word' : ℕ) (b : Bool)
    → get_elem? m.frames i ≡ some word
    → off < 32
    → ((k : ℕ) → test_bit word' k ≡ (if off == k then b else test_bit word k))
    → (frame : ℕ)
    → is_taken (record m { frames = set m.frames i word' }) frame
      ≡ (if i * 32 + off == frame then b else is_taken m frame)
unfolding is_taken
is_taken-set m i off word word' b e small law frame = elim (ℕ_discrete i (index_bit frame)) [
  | yes p ↦ ground (
    arith,
    ap (get_elem? m.frames) p,
    ap (get_elem? (set m.frames i word')) p,
    get_elem?-set_self m.frames i word' (get_elem?-bound m.frames i e),
    law (offset_bit frame),
  )
  | no n ↦ ground (arith, get_elem?-set_ne m.frames {i = i} {j = index_bit frame} word' n)
]

-- `setFrame` takes the frame of a covered address, and no other.
pub set_frame-is_taken :
    (m : FrameMap) (addr : ℕ)
    → IsFrameMap m
    → covered m (addr / 0x1000) ≡ true
    → (m' : FrameMap) × (set_frame m addr ≡ ok m')
      × IsFrameMap m'
      × (m'.frame_count ≡ m.frame_count)
      × ((frame : ℕ)
          → is_taken m' frame ≡ (if addr / 0x1000 == frame then true else is_taken m frame))
unfolding set_frame
set_frame-is_taken m addr v c =
    let i = index_bit (addr / 0x1000) in
    let off = offset_bit (addr / 0x1000) in
    let inside : i < length m.frames = ground (arith, v.words) in
    let (word, e) = get_elem?-lt m.frames i inside in
    (
      record m { frames = set m.frames i (set_bit word off) },
      ground (arith, e),
      record {
        words = omega (arith, v.words, length-set m.frames i (set_bit word off));
        small = v.small;
      },
      refl,
      λ frame.
          is_taken-set m i off word (set_bit word off) true e (omega arith)
            (test_bit-set_bit word off) frame
          ∙ ap (λ x. if x == frame then true else is_taken m frame) (omega arith),
    )

-- `clearFrame` gives back the frame of a covered address, and no other.
pub clear_frame-is_taken :
    (m : FrameMap) (addr : ℕ)
    → IsFrameMap m
    → covered m (addr / 0x1000) ≡ true
    → (m' : FrameMap) × (clear_frame m addr ≡ ok m')
      × IsFrameMap m'
      × (m'.frame_count ≡ m.frame_count)
      × ((frame : ℕ)
          → is_taken m' frame ≡ (if addr / 0x1000 == frame then false else is_taken m frame))
unfolding clear_frame
clear_frame-is_taken m addr v c =
    let i = index_bit (addr / 0x1000) in
    let off = offset_bit (addr / 0x1000) in
    let inside : i < length m.frames = ground (arith, v.words) in
    let (word, e) = get_elem?-lt m.frames i inside in
    (
      record m { frames = set m.frames i (clear_bit word off) },
      ground (arith, e),
      record {
        words = omega (arith, v.words, length-set m.frames i (clear_bit word off));
        small = v.small;
      },
      refl,
      λ frame.
          is_taken-set m i off word (clear_bit word off) false e (omega arith)
            (test_bit-clear_bit word off) frame
          ∙ ap (λ x. if x == frame then false else is_taken m frame) (omega arith),
    )
