-- ===== src/Memory/Spare.antt =====
-- How many frames are free, as an allocation after another takes them.
use native.Mathlib.Decide.{ℕ_discrete}
use akari.Prelude.{
  ℕ, zero, suc, ◌+◌, ◌*◌, ◌/◌, ◌≤◌, ◌<◌, ◌≡◌, ◌≢◌, ap, sym, ◌∙◌, Bool, true, false, List, [], ◌∷◌,
  arith, length, set, get_elem?-lt, ◌==◌, if◌then◌else◌, u32_mod, set_bit, set_bit_bound, inl, inr,
  ok, All, subst, ltb,
}
use akari.Memory.{FrameMap, Page, index_bit, offset_bit, set_frame, free_frame, alloc_any_frame}
use akari.Memory.Frames.{IsFrameMap, is_taken, covered, set_frame-is_taken}
use akari.Memory.FirstFree.{WordsFit, word_fits, free_frame-FirstFree, FirstFree}

All-set : (P : ℕ → Type 0) (l : List ℕ) (i v : ℕ) → All P l → P v → All P (set l i v)
All-set P [] i v h p = h
All-set P (x ∷ l) zero v h p = (p, h.1)
All-set P (x ∷ l) (suc i) v h p = (h.0, All-set P l i v h.1 p)

set_frame-WordsFit :
    (m : FrameMap) (addr : ℕ) {m' : FrameMap}
    → IsFrameMap m
    → WordsFit m.frames
    → covered m (addr / 0x1000) ≡ true
    → set_frame m addr ≡ ok m'
    → WordsFit m'.frames
unfolding set_frame
set_frame-WordsFit m addr {m'} v fit c e =
    let i = index_bit (addr / 0x1000) in
    let off = offset_bit (addr / 0x1000) in
    let (word, w) = get_elem?-lt m.frames i (ground (arith, v.words, c)) in
    let same : set m.frames i (set_bit word off) ≡ m'.frames = ground (arith, w, c, e) in
    let bound : set_bit word off < u32_mod =
      set_bit_bound 32 word off (word_fits m.frames i fit w) (omega arith) in
    subst WordsFit same (All-set (λ x. x < u32_mod) m.frames i (set_bit word off) fit bound)

-- Frames that are free, no two the same.
abbrev pub Spare : FrameMap → List ℕ → Type 0
Spare m [] = Unit
Spare m (f ∷ fs) = (covered m f ≡ true) × (is_taken m f ≡ false) × All (λ g. f ≢ g) fs × Spare m fs

pub record HasFrames (m : FrameMap) (count : ℕ) : Type 0 where
  pub valid : IsFrameMap m
  pub fit : WordsFit m.frames
  pub spare : List ℕ
  pub free : Spare m spare
  pub enough : count ≤ length spare

module _ (m m' : FrameMap) (frame : ℕ) (count : m'.frame_count ≡ m.frame_count)
    (taken : (k : ℕ) → is_taken m' k ≡ (if frame == k then true else is_taken m k)) where
  still_free : (f : ℕ) → frame ≢ f → is_taken m f ≡ false → is_taken m' f ≡ false
  still_free f n e = let t = taken f in ground (arith, t, n, e)

  Spare-others : (fs : List ℕ) → All (λ g. frame ≢ g) fs → Spare m fs → Spare m' fs
  Spare-others [] n h = tt
  Spare-others (f ∷ fs) (n, ns) (c, e, d, h) = (
    ap (λ k. ltb (index_bit f) (index_bit k)) count ∙ c,
    still_free f n e,
    d,
    Spare-others fs ns h,
  )

  -- When a frame is taken, one at most is lost.
  Spare-left :
      (fs : List ℕ)
      → Spare m fs
      → (fs' : List ℕ) × Spare m' fs'
        × (length fs ≤ length fs' + 1)
        × ((g : ℕ) → All (λ f. g ≢ f) fs → All (λ f. g ≢ f) fs')
  Spare-left [] h = ([], tt, omega arith, λ g a. a)
  Spare-left (f ∷ fs) (c, e, d, h) = elim (ℕ_discrete frame f) [
    | yes p ↦ (
      fs,
      Spare-others fs (subst (λ k. All (λ g. k ≢ g) fs) (sym p) d) h,
      omega arith,
      λ g a. a.1,
    )
    | no n ↦
        let (fs', h', l, keep) = Spare-left fs h in
        (
          f ∷ fs',
          (ap (λ k. ltb (index_bit f) (index_bit k)) count ∙ c, still_free f n e, keep f d, h'),
          omega (arith, l),
          λ g a. (a.0, keep g a.1),
        )
  ]

-- An allocation, with a frame free.
pub record Mapped (p : Page) (m : FrameMap) (writeable : Bool) (count : ℕ) : Type 0 where
  pub frame : ℕ
  pub frames : FrameMap
  pub runs :
      alloc_any_frame p m false writeable
      ≡ ok (
        record p { present = true; readwrite = writeable; user = true; page_address = frame },
        frames,
      )
  pub was_free : is_taken m frame ≡ false
  pub taken : (k : ℕ) → is_taken frames k ≡ (if frame == k then true else is_taken m k)
  pub left : HasFrames frames count

one_free :
    (m : FrameMap) (fs : List ℕ)
    → Spare m fs
    → 0 < length fs
    → (f : ℕ) × (covered m f ≡ true) × (is_taken m f ≡ false)
one_free m [] h l = absurd (omega (arith, l))
one_free m (f ∷ fs) h l = (f, h.0, h.1)

free_frame_found :
    (m : FrameMap) (count : ℕ)
    → HasFrames m (suc count)
    → (frame : ℕ) × (free_frame m ≡ ok (frame * 0x1000)) × FirstFree m 0 frame
free_frame_found m count h = elim (free_frame-FirstFree m h.valid h.fit) [
  | inl r ↦ r
  | inr r ↦
      let (f, c, e) = one_free m h.spare h.free (omega (arith, h.enough)) in
      absurd (ground (arith, r.1 f c, e))
]

pub alloc_any_frame-Mapped :
    (p : Page) (m : FrameMap) (writeable : Bool) (count : ℕ)
    → p.page_address ≡ 0
    → HasFrames m (suc count)
    → Mapped p m writeable count
unfolding alloc_any_frame
alloc_any_frame-Mapped p m writeable count empty h =
    let (frame, e, first) = free_frame_found m count h in
    let page : (frame * 0x1000) / 0x1000 ≡ frame = omega arith in
    let inside : covered m (frame * 0x1000 / 0x1000) ≡ true = ap (covered m) page ∙ first.inside in
    let (m', s, v', n, t) = set_frame-is_taken m (frame * 0x1000) h.valid inside in
    let taken : (k : ℕ) → is_taken m' k ≡ (if frame == k then true else is_taken m k) =
      λ k. t k ∙ ap (λ x. if x == k then true else is_taken m k) page in
    let (fs', free, l, _) = Spare-left m m' frame n taken h.spare h.free in
    record {
      frame = frame;
      frames = m';
      runs = ground (arith, e, s, empty);
      was_free = first.free;
      taken = taken;
      left = record {
        valid = v';
        fit = set_frame-WordsFit m (frame * 0x1000) {m' = m'} h.valid h.fit inside s;
        spare = fs';
        free = free;
        enough = omega (arith, l, h.enough);
      };
    }

pub HasFrames-le :
    (m : FrameMap) (few count : ℕ) → few ≤ count → HasFrames m count → HasFrames m few
HasFrames-le m few count l h = record {
  valid = h.valid;
  fit = h.fit;
  spare = h.spare;
  free = h.free;
  enough = omega (arith, l, h.enough);
}
