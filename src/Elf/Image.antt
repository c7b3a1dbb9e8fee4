-- ===== src/Elf/Image.antt =====
-- All the segments of an image, one after another.
use akari.Prelude.{
  ℕ, suc, ◌+◌, ◌*◌, ◌/◌, ◌%◌, ◌≤◌, ◌<◌, ◌≡◌, refl, ap, sym, subst, true, false, ◌∙◌, List, [], ◌∷◌,
  ok, arith, length, get_elem?, Bool-cases, inl, inr, All, slice, some, get_elem?-take, ◌==◌,
  if◌then◌else◌,
}
use akari.Memory.Frames.{is_taken}
use akari.Memory.Spare.{HasFrames}
use akari.Fat.{u16_at, u32_at}
use akari.Elf.{load_image_into, Space, ProgramHeader, header_at, load_segment, load_headers}
use akari.Elf.Chunk.{IsSegment, segment_byte}
use akari.Elf.Segment.{frame_of, byte_at}
use akari.Elf.Load.{pages_left, load_segment-Loaded}

-- The program headers of an image from a place on.
abbrev pub Headers : List ℕ → ℕ → ℕ → List ProgramHeader → Type 0
Headers image at size [] = Unit
Headers image at size (ph ∷ phs) = (header_at image at ≡ ok ph) × Headers image (at + size) size phs

abbrev pub first_page : ProgramHeader → ℕ
first_page ph = ph.p_vaddr / 0x1000

abbrev pub end_page : ProgramHeader → ℕ
end_page ph = (ph.p_vaddr + ph.p_memsz + 0xfff) / 0x1000

-- What is said of the segments to be loaded, and not of the other headers.
abbrev pub Loads : (ProgramHeader → Type 0) → List ProgramHeader → Type 0
Loads P = All (λ ph. ph.p_type ≡ 1 → P ph)

-- No page holds bytes of two segments, and the segments ascend.
abbrev pub Ascending : List ProgramHeader → Type 0
Ascending [] = Unit
Ascending (ph ∷ phs) = (ph.p_type ≡ 1 → Loads (λ q. end_page ph ≤ first_page q) phs) × Ascending phs

abbrev pub Unmapped : Space → ProgramHeader → Type 0
Unmapped s ph =
    (n : ℕ)
    → first_page ph ≤ n
    → n * 0x1000 < ph.p_vaddr + ph.p_memsz
    → (s.pages n).page_address ≡ 0

abbrev pub total_pages : List ProgramHeader → ℕ
total_pages [] = 0
total_pages (ph ∷ phs) = (if ph.p_type == 1 then pages_left ph 0 else 0) + total_pages phs

-- The bytes of a segment, each at its address.
pub record Present (image : List ℕ) (s : Space) (ph : ProgramHeader) : Type 0 where
  pub bytes : (k : ℕ) → k < ph.p_memsz → byte_at s (ph.p_vaddr + k) ≡ segment_byte ph image k
  pub owned : (k : ℕ) → k < ph.p_memsz → is_taken s.frames (frame_of s (ph.p_vaddr + k)) ≡ true

-- From one space to another, with the frames that were taken and the pages below one kept.
pub record Kept (s s' : Space) (page : ℕ) : Type 0 where
  physical : (f : ℕ) → is_taken s.frames f ≡ true → s'.physical f ≡ s.physical f
  still : (f : ℕ) → is_taken s.frames f ≡ true → is_taken s'.frames f ≡ true
  below : (n : ℕ) → n < page → s'.pages n ≡ s.pages n

Kept-trans : {s s' s'' : Space} {page : ℕ} → Kept s s' page → Kept s' s'' page → Kept s s'' page
Kept-trans v w = record {
  physical = λ f t. w.physical f (v.still f t) ∙ v.physical f t;
  still = λ f t. w.still f (v.still f t);
  below = λ n u. w.below n u ∙ v.below n u;
}

Present-Kept :
    (image : List ℕ) (s s' : Space) (ph : ProgramHeader)
    → Kept s s' (end_page ph)
    → Present image s ph
    → Present image s' ph
Present-Kept image s s' ph w p =
    let frame : (k : ℕ)
        → k < ph.p_memsz
        → frame_of s' (ph.p_vaddr + k) ≡ frame_of s (ph.p_vaddr + k) =
      λ k u.
        ap (λ page. page.page_address) (w.below ((ph.p_vaddr + k) / 0x1000) (omega (arith, u))) in
    record {
      bytes = λ k u.
          let a = ph.p_vaddr + k in
          ap (λ f. get_elem? (s'.physical f) (a % 0x1000)) (frame k u)
          ∙ ap (λ bytes. get_elem? bytes (a % 0x1000)) (w.physical (frame_of s a) (p.owned k u))
          ∙ p.bytes k u;
      owned = λ k u.
          ap (is_taken s'.frames) (frame k u) ∙ w.still (frame_of s (ph.p_vaddr + k)) (p.owned k u);
    }

All-both :
    (P Q R : ProgramHeader → Type 0) (f : (ph : ProgramHeader) → P ph → Q ph → R ph)
    (phs : List ProgramHeader)
    → All P phs
    → All Q phs
    → All R phs
All-both P Q R f [] h k = tt
All-both P Q R f (ph ∷ phs) h k = (f ph h.0 k.0, All-both P Q R f phs h.1 k.1)

module _ (image : List ℕ) (size : ℕ) where
  headers-skip :
      (at n : ℕ) (ph : ProgramHeader) (s : Space)
      → header_at image at ≡ ok ph
      → (ph.p_type == 1 ≡ false)
      → load_headers image at size (suc n) s ≡ load_headers image (at + size) size n s
  unfolding load_headers
  headers-skip at n ph s e t = ground (arith, e, t)

  headers-load :
      (at n : ℕ) (ph : ProgramHeader) (s s' : Space)
      → header_at image at ≡ ok ph
      → (ph.p_type == 1 ≡ true)
      → load_segment ph image s ≡ ok s'
      → load_headers image at size (suc n) s ≡ load_headers image (at + size) size n s'
  unfolding load_headers
  headers-load at n ph s s' e t x = ground (arith, e, t, x)

  headers-done : (at : ℕ) (s : Space) → load_headers image at size 0 s ≡ ok s
  unfolding load_headers
  headers-done at s = refl

  -- A space after some headers: all of their segments are present, and what was before them is kept.
  pub record Filled (phs : List ProgramHeader) (s s' : Space) : Type 0 where
    pub present : Loads (Present image s') phs
    pub kept : (page : ℕ) → Loads (λ q. page ≤ first_page q) phs → Kept s s' page

  pub load_headers-Filled :
      (phs : List ProgramHeader) (at : ℕ) (s : Space)
      → Headers image at size phs
      → Loads (λ ph. IsSegment ph image) phs
      → Ascending phs
      → Loads (Unmapped s) phs
      → ((f : ℕ) → length (s.physical f) ≡ 0x1000)
      → HasFrames s.frames (total_pages phs)
      → (s' : Space) × (load_headers image at size (length phs) s ≡ ok s') × Filled phs s s'
  load_headers-Filled [] at s hs vs o es sizes frames = (
    s,
    headers-done at s,
    record {
      present = tt;
      kept = λ page l. record { physical = λ f t. refl; still = λ f t. t; below = λ n u. refl };
    },
  )
  load_headers-Filled (ph ∷ phs) at s (h, hs) (v, vs) (o, os) (e, es) sizes frames =
      elim (Bool-cases (ph.p_type == 1)) [
        | inr t ↦
            let other : (P : Type 0) → ph.p_type ≡ 1 → P = λ P x. absurd (ground (arith, t, x)) in
            let need : total_pages (ph ∷ phs) ≡ total_pages phs = ground (arith, t) in
            let (s', x, w) =
              load_headers-Filled phs (at + size) s hs vs os es sizes
                (subst (HasFrames s.frames) need frames) in
            (
              s',
              headers-skip at (length phs) ph s h t ∙ x,
              record {
                present = (other (Present image s' ph), w.present);
                kept = λ page l. w.kept page l.1;
              },
            )
        | inl t ↦
            let load : ph.p_type ≡ 1 = ground (arith, t) in
            let need : total_pages (ph ∷ phs) ≡ pages_left ph 0 + total_pages phs =
              ground (arith, t) in
            let (s1, y, loaded, left) =
              load_segment-Loaded ph image (v load) s (e load) (total_pages phs) sizes
                (subst (HasFrames s.frames) need frames) in
            let (s', x, w) =
              load_headers-Filled phs (at + size) s1 hs vs os
                (All-both (λ q. q.p_type ≡ 1 → Unmapped s q)
                  (λ q. q.p_type ≡ 1 → end_page ph ≤ first_page q)
                  (λ q. q.p_type ≡ 1 → Unmapped s1 q)
                  (λ q b d k n u z.
                    ap (λ p. p.page_address) (loaded.after n (omega (arith, u, d k))) ∙ b k n u z)
                  phs es (o load))
                loaded.sizes left in
            (
              s',
              headers-load at (length phs) ph s s1 h t y ∙ x,
              record {
                present = (
                  λ _.
                      Present-Kept image s1 s' ph (w.kept (end_page ph) (o load))
                        (record { bytes = loaded.bytes; owned = loaded.owned }),
                  w.present,
                );
                kept = λ page l.
                    Kept-trans {s' = s1}
                      (record {
                        physical = loaded.kept;
                        still = loaded.still;
                        below = λ n u. loaded.before n (omega (arith, u, l.0 load));
                      })
                      (w.kept page l.1);
              },
            )
      ]

-- What the header of an image says: where the program headers are, what they are, and the entry point.
pub record IsImage (image : List ℕ) (phs : List ProgramHeader) (entry : ℕ) : Type 0 where
  pub magic : slice image 0 4 ≡ 0x7f ∷ b'E' ∷ b'L' ∷ b'F' ∷ []
  pub e_phoff : ℕ
  pub e_phentsize : ℕ
  pub entry_at : u32_at image 24 ≡ ok entry
  pub phoff_at : u32_at image 28 ≡ ok e_phoff
  pub phentsize_at : u16_at image 42 ≡ ok e_phentsize
  pub phnum_at : u16_at image 44 ≡ ok (length phs)
  pub headers : Headers image e_phoff e_phentsize phs

magic_cell :
    (image : List ℕ)
    → slice image 0 4 ≡ 0x7f ∷ b'E' ∷ b'L' ∷ b'F' ∷ []
    → (i : ℕ) → i < 4
    → get_elem? image i ≡ get_elem? (0x7f ∷ b'E' ∷ b'L' ∷ b'F' ∷ []) i
magic_cell image m i u = sym (get_elem?-take 4 image i u) ∙ ap (λ l. get_elem? l i) m

-- An image with the magic bytes, whose segments to be loaded have a part in the file that lies in it and is
-- no longer than their size in memory, have such a size below 2^31 and an end below 2^32, and ascend with
-- no page in common, is loaded into pages that are not mapped, with frames of 4096 bytes enough: this
-- succeeds with the entry point, and every byte of every such segment is then at its address.
pub load_image_into-Present :
    (image : List ℕ) (phs : List ProgramHeader) (entry : ℕ) (s : Space)
    → IsImage image phs entry
    → Loads (λ ph. IsSegment ph image) phs
    → Ascending phs
    → Loads (Unmapped s) phs
    → ((f : ℕ) → length (s.physical f) ≡ 0x1000)
    → HasFrames s.frames (total_pages phs)
    → (s' : Space) × (load_image_into image s ≡ ok (some (s', entry)))
      × Loads (Present image s') phs
unfolding load_image_into
load_image_into-Present image phs entry s v vs o es sizes frames =
    let m0 = magic_cell image v.magic 0 (omega arith) in
    let m1 = magic_cell image v.magic 1 (omega arith) in
    let m2 = magic_cell image v.magic 2 (omega arith) in
    let m3 = magic_cell image v.magic 3 (omega arith) in
    let a = v.entry_at in
    let b = v.phoff_at in
    let c = v.phentsize_at in
    let d = v.phnum_at in
    let (s', x, w) =
      load_headers-Filled image v.e_phentsize phs v.e_phoff s v.headers vs o es sizes frames in
    (s', ground (arith, m0, m1, m2, m3, a, b, c, d, x), w.present)
