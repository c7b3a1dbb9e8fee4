-- ===== src/Elf/Segment.antt =====
-- One segment, put into fresh pages of a task round by round.
use Prim.Native.Nat.{min}
use native.Mathlib.Decide.{ℕ_discrete}
use akari.Prelude.{
  ℕ, suc, ◌+◌, ◌-◌, ◌*◌, ◌/◌, ◌%◌, ◌≤◌, ◌<◌, ◌≡◌, ◌≢◌, refl, ap, subst, ◌∙◌, List, true, Option,
  get_elem?, length, ok, arith, ltb, Bool-cases, inl, inr, add32, update, update-same, update-other,
  overwrite, length-overwrite, get_elem?-overwrite,
}
use akari.Memory.{Page, FrameMap}
use akari.Memory.Frames.{is_taken}
use akari.Memory.Spare.{HasFrames, Mapped, alloc_any_frame-Mapped}
use akari.Elf.{Space, ProgramHeader, load_round}
use akari.Elf.Chunk.{segment_byte, IsSegment, Chunk, chunk-Chunk}

-- The frame and the byte that a virtual address leads to.
abbrev pub frame_of : Space → ℕ → ℕ
frame_of s a = (s.pages (a / 0x1000)).page_address

abbrev pub byte_at : Space → ℕ → Option ℕ
byte_at s a = get_elem? (s.physical (frame_of s a)) (a % 0x1000)

-- A space in which the first `copied` bytes of a segment are loaded, from a space `s`.
pub record Loaded (ph : ProgramHeader) (image : List ℕ) (s s' : Space) (copied : ℕ) : Type 0 where
  pub bytes : (k : ℕ) → k < copied → byte_at s' (ph.p_vaddr + k) ≡ segment_byte ph image k
  pub owned : (k : ℕ) → k < copied → is_taken s'.frames (frame_of s' (ph.p_vaddr + k)) ≡ true
  pub kept : (f : ℕ) → is_taken s.frames f ≡ true → s'.physical f ≡ s.physical f
  pub still : (f : ℕ) → is_taken s.frames f ≡ true → is_taken s'.frames f ≡ true
  pub before : (n : ℕ) → n < ph.p_vaddr / 0x1000 → s'.pages n ≡ s.pages n
  pub after : (n : ℕ) → ph.p_vaddr + copied ≤ n * 0x1000 → s'.pages n ≡ s.pages n
  pub sizes : (f : ℕ) → length (s'.physical f) ≡ 0x1000

-- A page of a space mapped to a fresh frame, and bytes put into this.
abbrev placed : Space → ℕ → Page → FrameMap → ℕ → List ℕ → Space
placed s n page frames from bytes = record {
  pages = update s.pages n page;
  physical =
      update s.physical page.page_address (overwrite (s.physical page.page_address) from bytes);
  frames = frames;
}

module _ (ph : ProgramHeader) (image : List ℕ) (v : IsSegment ph image) (s s' : Space)
    (copied count : ℕ) (w : Loaded ph image s s' copied) (more : copied < ph.p_memsz)
    (aligned : 0 < copied → (ph.p_vaddr + copied) % 0x1000 ≡ 0)
    (empty : (s'.pages ((ph.p_vaddr + copied) / 0x1000)).page_address ≡ 0)
    (frames : HasFrames s'.frames (suc count)) where
  abbrev at : ℕ
  at = ph.p_vaddr + copied

  abbrev copy : ℕ
  copy = min (0x1000 - at % 0x1000) (ph.p_memsz - copied)

  address : add32 ph.p_vaddr copied ≡ at
  address = let below = v.below in omega (arith, below, more)

  abbrev mapped : Mapped (s'.pages (at / 0x1000)) s'.frames true count
  mapped = alloc_any_frame-Mapped (s'.pages (at / 0x1000)) s'.frames true count empty frames

  abbrev got : Chunk ph image copied copy
  got = chunk-Chunk ph image v copied copy (omega (arith, more)) (omega (arith, more))

  abbrev page : Page
  page = record (s'.pages (at / 0x1000)) {
    present = true;
    readwrite = true;
    user = true;
    page_address = mapped.frame;
  }

  abbrev s'' : Space
  s'' = placed s' (at / 0x1000) page mapped.frames (at % 0x1000) got.bytes

  round_runs : load_round ph image s' copied ≡ ok (s'', copied + copy)
  unfolding load_round
  round_runs = let x = mapped.runs in let y = got.runs in ground (arith, address, x, y)

  frame_new : (a : ℕ) → at / 0x1000 ≡ a / 0x1000 → frame_of s'' a ≡ mapped.frame
  frame_new a e = ap (λ p. p.page_address) (update-same s'.pages (at / 0x1000) page (a / 0x1000) e)

  frame_old : (a : ℕ) → at / 0x1000 ≢ a / 0x1000 → frame_of s'' a ≡ frame_of s' a
  frame_old a n = ap (λ p. p.page_address) (update-other s'.pages (at / 0x1000) page (a / 0x1000) n)

  physical_old : (f : ℕ) → is_taken s'.frames f ≡ true → s''.physical f ≡ s'.physical f
  physical_old f t =
      let free = mapped.was_free in
      update-other s'.physical mapped.frame
        (overwrite (s'.physical mapped.frame) (at % 0x1000) got.bytes) f
        (λ e. ground (arith, t, free, ap (is_taken s'.frames) e))

  still_taken : (f : ℕ) → is_taken s'.frames f ≡ true → is_taken mapped.frames f ≡ true
  still_taken f t = let x = mapped.taken f in ground (arith, t, x)

  new_taken : is_taken mapped.frames mapped.frame ≡ true
  new_taken = let x = mapped.taken mapped.frame in ground (arith, x)

  other_page : (k : ℕ) → k < copied → at / 0x1000 ≢ (ph.p_vaddr + k) / 0x1000
  other_page k u e = absurd (omega (arith, u, e, aligned (omega (arith, u))))

  same_page :
      (i : ℕ)
      → i < copy
      → (at / 0x1000 ≡ (ph.p_vaddr + (copied + i)) / 0x1000)
        × ((ph.p_vaddr + (copied + i)) % 0x1000 ≡ at % 0x1000 + i)
  same_page i u = (omega (arith, u), omega (arith, u))

  old_byte : (k : ℕ) → k < copied → byte_at s'' (ph.p_vaddr + k) ≡ segment_byte ph image k
  old_byte k u =
      let a = ph.p_vaddr + k in
      ap (λ f. get_elem? (s''.physical f) (a % 0x1000)) (frame_old a (other_page k u))
      ∙ ap (λ bytes. get_elem? bytes (a % 0x1000)) (physical_old (frame_of s' a) (w.owned k u))
      ∙ w.bytes k u

  new_byte :
      (i : ℕ)
      → i < copy
      → byte_at s'' (ph.p_vaddr + (copied + i)) ≡ segment_byte ph image (copied + i)
  new_byte i u =
      let a = ph.p_vaddr + (copied + i) in
      let (p, o) = same_page i u in
      let n = got.size in
      let size = w.sizes mapped.frame in
      let changed = overwrite (s'.physical mapped.frame) (at % 0x1000) got.bytes in
      ap (λ f. get_elem? (s''.physical f) (a % 0x1000)) (frame_new a p)
      ∙ ap (λ bytes. get_elem? bytes (a % 0x1000))
          (update-same s'.physical mapped.frame changed mapped.frame refl)
      ∙ ap (get_elem? changed) o
      ∙ get_elem?-overwrite (s'.physical mapped.frame) (at % 0x1000) got.bytes i
          (omega (arith, u, n)) (omega (arith, u, n, size))
      ∙ got.same i u

  each_byte : (k : ℕ) → k < copied + copy → byte_at s'' (ph.p_vaddr + k) ≡ segment_byte ph image k
  each_byte k u = elim (Bool-cases (ltb k copied)) [
    | inl l ↦ old_byte k (ground (arith, l))
    | inr l ↦
        let i : copied + (k - copied) ≡ k = ground (arith, l) in
        subst (λ j. byte_at s'' (ph.p_vaddr + j) ≡ segment_byte ph image j) i
          (new_byte (k - copied) (omega (arith, i, u)))
  ]

  each_owned :
      (k : ℕ) → k < copied + copy → is_taken mapped.frames (frame_of s'' (ph.p_vaddr + k)) ≡ true
  each_owned k u = elim (Bool-cases (ltb k copied)) [
    | inl l ↦
        let b : k < copied = ground (arith, l) in
        ap (is_taken mapped.frames) (frame_old (ph.p_vaddr + k) (other_page k b))
        ∙ still_taken (frame_of s' (ph.p_vaddr + k)) (w.owned k b)
    | inr l ↦
        let i : copied + (k - copied) ≡ k = ground (arith, l) in
        let (p, _) = same_page (k - copied) (omega (arith, i, u)) in
        ap (is_taken mapped.frames)
          (frame_new (ph.p_vaddr + k) (p ∙ ap (λ j. (ph.p_vaddr + j) / 0x1000) i))
        ∙ new_taken
  ]

  each_size : (f : ℕ) → length (s''.physical f) ≡ 0x1000
  each_size f =
      let changed = overwrite (s'.physical mapped.frame) (at % 0x1000) got.bytes in
      elim (ℕ_discrete mapped.frame f) [
        | yes e ↦
            ap length (update-same s'.physical mapped.frame changed f e)
            ∙ length-overwrite (s'.physical mapped.frame) (at % 0x1000) got.bytes
            ∙ w.sizes mapped.frame
        | no n ↦ ap length (update-other s'.physical mapped.frame changed f n) ∙ w.sizes f
      ]

  round-Loaded : Loaded ph image s s'' (copied + copy)
  round-Loaded = record {
    bytes = each_byte;
    owned = each_owned;
    kept = λ f t. physical_old f (w.still f t) ∙ w.kept f t;
    still = λ f t. still_taken f (w.still f t);
    before = λ n u.
        update-other s'.pages (at / 0x1000) page n (λ e. absurd (omega (arith, e, u)))
        ∙ w.before n u;
    after = λ n u.
        update-other s'.pages (at / 0x1000) page n (λ e. absurd (omega (arith, e, u, more)))
        ∙ w.after n (omega (arith, u));
    sizes = each_size;
  }

  -- A round succeeds, and more of the segment is loaded.
  pub load_round-Loaded :
      (s2 : Space) × (n : ℕ) × (load_round ph image s' copied ≡ ok (s2, copied + n))
      × (n ≡ min (0x1000 - at % 0x1000) (ph.p_memsz - copied))
      × Loaded ph image s s2 (copied + n)
      × HasFrames s2.frames count
  load_round-Loaded = (s'', copy, round_runs, refl, round-Loaded, mapped.left)
