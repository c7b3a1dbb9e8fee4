-- ===== src/Memory/Tests.antt =====
-- A memory of 64 frames, whose first 33 are taken, and the theorems at it.
use akari.Prelude.{
  ℕ, ◌≡◌, refl, true, false, [], ◌∷◌, arith, if◌then◌else◌, ◌==◌, ok, test_bit, ◌*◌,
}
use akari.Memory.{FrameMap, Page, free_frame, free_word, free_bit, alloc_any_frame}
use akari.Memory.Frames.{IsFrameMap, is_taken}
use akari.Memory.FirstFree.{FirstFree, WordsFit, alloc_any_frame-FirstFree}

abbrev low_taken : FrameMap
low_taken = record { frames = 0xFFFFFFFF ∷ 1 ∷ []; frame_count = 64 }

low_taken-IsFrameMap : IsFrameMap low_taken
low_taken-IsFrameMap = record { words = omega arith; small = omega arith }

low_taken-WordsFit : WordsFit low_taken.frames
low_taken-WordsFit = (omega arith, (omega arith, tt))

frame_33 : free_frame low_taken ≡ ok (33 * 0x1000)
unfolding free_frame free_word free_bit test_bit
frame_33 = refl

abbrev no_page : Page
no_page = record {
  present = false;
  readwrite = false;
  user = false;
  accessed = false;
  dirty = false;
  page_address = 0;
}

free_33 : is_taken low_taken 33 ≡ false
unfolding is_taken test_bit
free_33 = refl

alloc_any_frame-FirstFree_example :
    (frame : ℕ) × (m' : FrameMap) × (alloc_any_frame no_page low_taken false true
      ≡ ok (
        record no_page { present = true; readwrite = true; user = true; page_address = frame },
        m',
      ))
    × FirstFree low_taken 0 frame
    × IsFrameMap m'
    × ((k : ℕ) → is_taken m' k ≡ (if frame == k then true else is_taken low_taken k))
alloc_any_frame-FirstFree_example =
    alloc_any_frame-FirstFree no_page low_taken false true 33 low_taken-IsFrameMap
      low_taken-WordsFit refl refl free_33
