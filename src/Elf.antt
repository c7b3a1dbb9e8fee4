-- ===== src/Elf.antt =====
-- ELF.cpp: the loading of a program's image into the pages of a new task.
pub mod Chunk
pub mod Segment
pub mod Load
pub mod Image
mod Tests
use Prim.Native.Nat.{min}
use akari.Prelude.{
  ℕ, zero, suc, ◌+◌, ◌-◌, ◌*◌, ◌/◌, ◌%◌, Bool, true, false, ◌&&◌, List, [], ◌++◌, Option, none,
  some, get_elem?, length, replicate, ltb, ◌==◌, if◌then◌else◌, add32, sub32, s32_rank, slice,
  overwrite, update, Result, ok, panic, fault, ◌>>=◌, or_fault,
}
use akari.Memory.{Page, FrameMap, alloc_any_frame}
use akari.Fat.{u16_at, u32_at}

-- The task's pages by their number, the bytes of each frame, and the map of the frames. A page that
-- `getPage` would make is one that is not present.
pub record Space : Type 0 where
  pub pages : ℕ → Page
  pub physical : ℕ → List ℕ
  pub frames : FrameMap

-- The fields of `Elf32_Phdr` that are read.
pub record ProgramHeader : Type 0 where
  pub p_type : ℕ
  pub p_offset : ℕ
  pub p_vaddr : ℕ
  pub p_filesz : ℕ
  pub p_memsz : ℕ

-- `memcpy` from the image
unfoldable pub image_bytes : List ℕ → ℕ → ℕ → Result (List ℕ)
image_bytes image from count =
    if ltb (length image) (from + count) then fault else ok (slice image from count)

-- What is left of the file's part: less than zero past its end.
abbrev pub file_left : ℕ → ℕ
file_left left = if ltb (s32_rank left) (s32_rank 0) then 0 else left

-- The bytes that a round puts at `dest`.
unfoldable pub chunk : ProgramHeader → List ℕ → ℕ → ℕ → Result (List ℕ)
chunk ph image copied copy =
    let from = ph.p_offset + copied in
    let whole = image_bytes image from copy in
    let left = sub32 ph.p_filesz copied in
    let part = if file_left left == 0 then ok [] else image_bytes image from (file_left left) in
    let padded : Result (List ℕ) =
      part >>= (λ bytes. ok (bytes ++ replicate (copy - file_left left) 0)) in
    if ph.p_filesz == 0
    then ok (replicate copy 0)
    else (if ltb ph.p_filesz ph.p_memsz
        then (if ltb (s32_rank left) (s32_rank copy) then padded else whole)
        else (if ph.p_filesz == ph.p_memsz then whole else panic))

-- Up to the end of a frame, or of the segment.
abbrev pub copy_count : ProgramHeader → ℕ → ℕ
copy_count ph copied = min (0x1000 - add32 ph.p_vaddr copied % 0x1000) (ph.p_memsz - copied)

unfoldable pub load_round : ProgramHeader → List ℕ → Space → ℕ → Result (Space × ℕ)
load_round ph image s copied = do
  let at = add32 ph.p_vaddr copied
  let copy = copy_count ph copied
  (page, frames) ← alloc_any_frame (s.pages (at / 0x1000)) s.frames false true
  bytes ← chunk ph image copied copy
  let frame = page.page_address
  ok (
    record {
      pages = update s.pages (at / 0x1000) page;
      physical = update s.physical frame (overwrite (s.physical frame) (at % 0x1000) bytes);
      frames = frames;
    },
    copied + copy,
  )

-- The loop over a segment. A round copies a byte at least.
unfoldable pub load_rounds : ProgramHeader → List ℕ → Space → ℕ → ℕ → Result Space
load_rounds ph image s copied zero = fault
load_rounds ph image s copied (suc rounds) =
    let step : Result Space =
      load_round ph image s copied >>= (λ (s', copied'). load_rounds ph image s' copied' rounds) in
    if ltb copied ph.p_memsz then step else ok s

unfoldable pub load_segment : ProgramHeader → List ℕ → Space → Result Space
load_segment ph image s = load_rounds ph image s 0 (suc ph.p_memsz)

unfoldable pub header_at : List ℕ → ℕ → Result ProgramHeader
header_at image at = do
  p_type ← u32_at image at
  p_offset ← u32_at image (at + 4)
  p_vaddr ← u32_at image (at + 8)
  p_filesz ← u32_at image (at + 16)
  p_memsz ← u32_at image (at + 20)
  ok (record {
    p_type = p_type;
    p_offset = p_offset;
    p_vaddr = p_vaddr;
    p_filesz = p_filesz;
    p_memsz = p_memsz;
  })

-- The loop over the program headers, from one at `at`.
unfoldable pub load_headers : List ℕ → ℕ → ℕ → ℕ → Space → Result Space
load_headers image at phentsize zero s = ok s
load_headers image at phentsize (suc n) s = do
  ph ← header_at image at
  s' ← (if ph.p_type == 1 then load_segment ph image s else ok s)
  load_headers image (at + phentsize) phentsize n s'

abbrev pub is_magic : ℕ → ℕ → ℕ → ℕ → Bool
is_magic a b c d = a == 0x7f && b == b'E' && c == b'L' && d == b'F'

-- The task's space and its `eip`, when the image is of the right kind.
unfoldable pub load_image_into : List ℕ → Space → Result (Option (Space × ℕ))
load_image_into image s = do
  a ← or_fault (get_elem? image 0)
  b ← or_fault (get_elem? image 1)
  c ← or_fault (get_elem? image 2)
  d ← or_fault (get_elem? image 3)
  let load : Result (Option (Space × ℕ)) = do
    e_entry ← u32_at image 24
    e_phoff ← u32_at image 28
    e_phentsize ← u16_at image 42
    e_phnum ← u16_at image 44
    s' ← load_headers image e_phoff e_phentsize e_phnum s
    ok (some (s', e_entry))
  (if is_magic a b c d then load else ok none)
