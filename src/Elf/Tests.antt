-- ===== src/Elf/Tests.antt =====
-- An image with one segment, and its loading.
use akari.Prelude.{
  ℕ, ◌≡◌, refl, List, [], ◌∷◌, ◌++◌, some, none, test_bit, replicate, length-replicate, arith, ok,
  false,
}
use akari.Memory.{FrameMap, Page}
use akari.Memory.Frames.{is_taken}
use akari.Memory.Spare.{HasFrames, Spare}
use akari.Fat.{u16_at, u32_at}
use akari.Elf.{Space, ProgramHeader, header_at, load_image_into}
use akari.Elf.Chunk.{IsSegment}
use akari.Elf.Image.{IsImage, Headers, Present, Loads, load_image_into-Present}

abbrev header_bytes : List ℕ
header_bytes =
    (1 ∷ 0 ∷ 0 ∷ 0 ∷ [])
    ++ replicate 4 0
    ++ (2 ∷ 0x10 ∷ 0 ∷ 0 ∷ [])
    ++ replicate 4 0
    ++ (4 ∷ 0 ∷ 0 ∷ 0 ∷ [])
    ++ (8 ∷ 0 ∷ 0 ∷ 0 ∷ [])
    ++ replicate 8 0

abbrev image : List ℕ
image =
    (0x7f ∷ b'E' ∷ b'L' ∷ b'F' ∷ [])
    ++ replicate 20 0
    ++ (0 ∷ 0x10 ∷ 0 ∷ 0 ∷ [])
    ++ (52 ∷ 0 ∷ 0 ∷ 0 ∷ [])
    ++ replicate 10 0
    ++ (32 ∷ 0 ∷ [])
    ++ (1 ∷ 0 ∷ [])
    ++ replicate 6 0
    ++ header_bytes

abbrev segment : ProgramHeader
segment = record { p_type = 1; p_offset = 0; p_vaddr = 0x1002; p_filesz = 4; p_memsz = 8 }

image-header : Headers image 52 32 (segment ∷ [])
unfolding header_at u32_at u16_at
image-header = (refl, tt)

image-IsImage : IsImage image (segment ∷ []) 0x1000
unfolding u32_at u16_at
image-IsImage = record {
  magic = refl;
  e_phoff = 52;
  e_phentsize = 32;
  entry_at = refl;
  phoff_at = refl;
  phentsize_at = refl;
  phnum_at = refl;
  headers = image-header;
}

segment-IsSegment : IsSegment segment image
segment-IsSegment = record {
  ordered = omega arith;
  small = omega arith;
  below = omega arith;
  stored = omega arith;
}

abbrev low_taken : FrameMap
low_taken = record { frames = 0xFFFFFFFF ∷ 1 ∷ []; frame_count = 64 }

two_free : Spare low_taken (33 ∷ 34 ∷ [])
unfolding is_taken test_bit
two_free = (refl, refl, (λ e. absurd (omega (arith, e)), tt), (refl, refl, tt, tt))

low_taken-HasFrames : HasFrames low_taken 1
low_taken-HasFrames = record {
  valid = record { words = omega arith; small = omega arith };
  fit = (omega arith, (omega arith, tt));
  spare = 33 ∷ 34 ∷ [];
  free = two_free;
  enough = omega arith;
}

abbrev no_page : Page
no_page = record {
  present = false;
  readwrite = false;
  user = false;
  accessed = false;
  dirty = false;
  page_address = 0;
}

abbrev space : Space
space = record { pages = λ n. no_page; physical = λ f. replicate 0x1000 0; frames = low_taken }

-- An image of another kind is refused.
other_kind : load_image_into (0x7f ∷ 0 ∷ 0 ∷ 0 ∷ []) space ≡ ok none
unfolding load_image_into
other_kind = refl

load_image_into-Present_example :
    (s' : Space) × (load_image_into image space ≡ ok (some (s', 0x1000)))
    × Loads (Present image s') (segment ∷ [])
load_image_into-Present_example =
    load_image_into-Present image (segment ∷ []) 0x1000 space image-IsImage
      (λ _. segment-IsSegment, tt) (λ _. tt, tt) (λ _ n u h. refl, tt)
      (λ f. length-replicate {A = ℕ} 0x1000 0) low_taken-HasFrames
