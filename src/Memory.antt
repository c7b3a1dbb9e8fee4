-- ===== src/Memory.antt =====
-- Memory.cpp and inc/Memory.hpp: the frame bitmap, and the pages that take frames from it.
pub mod Frames
pub mod FirstFree
pub mod Spare
mod Tests
use akari.Prelude.{
  ℕ, zero, suc, ◌+◌, ◌-◌, ◌*◌, ◌/◌, ◌%◌, Bool, true, false, List, Option, none, some, get_elem?,
  set, ltb, ◌==◌, if◌then◌else◌, ◌&&◌, add32, u32_mod, test_bit, set_bit, clear_bit, not, Result,
  ok, panic, ◌>>=◌, ◌>>◌, assert, or_fault,
}

-- `INDEX_BIT` and `OFFSET_BIT`
abbrev pub index_bit : ℕ → ℕ
index_bit n = n / 32

abbrev pub offset_bit : ℕ → ℕ
offset_bit n = n % 32

-- `_frames` and `_frameCount`. A bit is set when its frame is taken.
pub record FrameMap : Type 0 where
  pub frames : List ℕ
  pub frame_count : ℕ

unfoldable pub set_frame : FrameMap → ℕ → Result FrameMap
set_frame m addr = do
  let frame = addr / 0x1000
  assert (ltb (index_bit frame) (index_bit m.frame_count))
  word ← or_fault (get_elem? m.frames (index_bit frame))
  ok (record m { frames = set m.frames (index_bit frame) (set_bit word (offset_bit frame)) })

unfoldable pub clear_frame : FrameMap → ℕ → Result FrameMap
clear_frame m addr = do
  let frame = addr / 0x1000
  assert (ltb (index_bit frame) (index_bit m.frame_count))
  word ← or_fault (get_elem? m.frames (index_bit frame))
  ok (record m { frames = set m.frames (index_bit frame) (clear_bit word (offset_bit frame)) })

unfoldable pub test_frame : FrameMap → ℕ → Result Bool
test_frame m addr = do
  let frame = addr / 0x1000
  assert (ltb (index_bit frame) (index_bit m.frame_count))
  word ← or_fault (get_elem? m.frames (index_bit frame))
  ok (test_bit word (offset_bit frame))

-- The loop over the bits of a word, from bit `j` with `rounds` left.
unfoldable pub free_bit : ℕ → ℕ → ℕ → Option ℕ
free_bit word j zero = none
free_bit word j (suc rounds) =
    let next = free_bit word (j + 1) rounds in if test_bit word j then next else some j

-- The loop over the words, from word `i` with `rounds` left.
unfoldable pub free_word : List ℕ → ℕ → ℕ → Result ℕ
free_word frames i zero = panic
free_word frames i (suc rounds) =
    let next = free_word frames (i + 1) rounds in
    do
      word ← or_fault (get_elem? frames i)
      if word == u32_mod - 1 then next else elim (free_bit word 0 32) [
        | none ↦ panic
        | some j ↦ ok ((i * 32 + j) * 0x1000 % u32_mod)
      ]

unfoldable pub free_frame : FrameMap → Result ℕ
free_frame m = free_word m.frames 0 (index_bit m.frame_count)

-- `Memory::Page`, less its reserved and available bits.
pub record Page : Type 0 where
  pub present : Bool
  pub readwrite : Bool
  pub user : Bool
  pub accessed : Bool
  pub dirty : Bool
  pub page_address : ℕ

unfoldable pub alloc_frame : Page → FrameMap → ℕ → Bool → Bool → Result (Page × FrameMap)
alloc_frame p m addr kernel writeable = do
  assert (p.page_address == 0)
  m' ← set_frame m addr
  ok (
    record p {
      present = true;
      readwrite = writeable;
      user = not kernel;
      page_address = addr / 0x1000;
    },
    m',
  )

unfoldable pub alloc_any_frame : Page → FrameMap → Bool → Bool → Result (Page × FrameMap)
alloc_any_frame p m kernel writeable = do
  assert (p.page_address == 0)
  addr ← free_frame m
  m' ← set_frame m addr
  ok (
    record p {
      present = true;
      readwrite = writeable;
      user = not kernel;
      page_address = addr / 0x1000;
    },
    m',
  )
