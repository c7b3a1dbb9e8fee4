-- ===== src/Elf/Load.antt =====
-- The loop of the loader over one segment.
use Prim.Native.Nat.{min}
use akari.Prelude.{
  if◌then◌else◌, ℕ, zero, suc, ◌+◌, ◌-◌, ◌*◌, ◌/◌, ◌%◌, ◌≤◌, ◌<◌, ◌≡◌, refl, ap, ◌∙◌, List, ok,
  arith, ltb, length, Bool-cases, inl, inr, subst,
}
use akari.Memory.Spare.{HasFrames, HasFrames-le}
use akari.Elf.{Space, ProgramHeader, load_round, load_rounds, load_segment}
use akari.Elf.Chunk.{IsSegment}
use akari.Elf.Segment.{Loaded, load_round-Loaded}

-- The pages of a segment from byte `copied` on.
abbrev pub pages_left : ProgramHeader → ℕ → ℕ
pages_left ph copied =
    if ltb copied ph.p_memsz
    then (ph.p_vaddr + ph.p_memsz + 0xfff) / 0x1000 - (ph.p_vaddr + copied) / 0x1000
    else 0

module _ (ph : ProgramHeader) (image : List ℕ) (v : IsSegment ph image) (s : Space)
    (empty : (n : ℕ)
      → ph.p_vaddr / 0x1000 ≤ n
      → n * 0x1000 < ph.p_vaddr + ph.p_memsz
      → (s.pages n).page_address ≡ 0)
    (others : ℕ) where
  -- What a round needs of the space that it is given.
  record Ready (s' : Space) (copied : ℕ) : Type 0 where
    aligned : 0 < copied → (ph.p_vaddr + copied) % 0x1000 ≡ 0
    unmapped : (s'.pages ((ph.p_vaddr + copied) / 0x1000)).page_address ≡ 0

  rounds-done :
      (s' : Space) (copied rounds : ℕ)
      → copied ≡ ph.p_memsz
      → load_rounds ph image s' copied (suc rounds) ≡ ok s'
  unfolding load_rounds
  rounds-done s' copied rounds e = ground (arith, e)

  rounds-more :
      (s' s2 : Space) (copied copied' rounds : ℕ)
      → copied < ph.p_memsz
      → load_round ph image s' copied ≡ ok (s2, copied')
      → {s3 : Space} → load_rounds ph image s2 copied' rounds ≡ ok s3
      → load_rounds ph image s' copied (suc rounds) ≡ ok s3
  unfolding load_rounds
  rounds-more s' s2 copied copied' rounds u e {s3} f = ground (arith, u, e, f)

  next_aligned :
      (copied n : ℕ)
      → copied < ph.p_memsz
      → n ≡ min (0x1000 - (ph.p_vaddr + copied) % 0x1000) (ph.p_memsz - copied)
      → copied + n < ph.p_memsz
      → (ph.p_vaddr + (copied + n)) % 0x1000 ≡ 0
  next_aligned copied n more size k = omega (arith, k, size)

  next_count :
      (copied n : ℕ)
      → copied < ph.p_memsz
      → n ≡ min (0x1000 - (ph.p_vaddr + copied) % 0x1000) (ph.p_memsz - copied)
      → pages_left ph (copied + n) + others ≤ pages_left ph copied + others - 1
  next_count copied n more size = elim (Bool-cases (ltb (copied + n) ph.p_memsz)) [
    | inl e ↦
        let k : copied + n < ph.p_memsz = ground (arith, e) in
        let go = next_aligned copied n more size k in ground (arith, more, size, k, go)
    | inr e ↦ ground (arith, more, e)
  ]

  next-Ready :
      (next : Space) (copied : ℕ)
      → Loaded ph image s next copied
      → copied < ph.p_memsz
      → (ph.p_vaddr + copied) % 0x1000 ≡ 0
      → Ready next copied
  next-Ready next copied w k go = record {
    aligned = λ _. go;
    unmapped =
        ap (λ p. p.page_address) (w.after ((ph.p_vaddr + copied) / 0x1000) (omega (arith, go)))
        ∙ empty ((ph.p_vaddr + copied) / 0x1000) (omega arith) (omega (arith, k));
  }

  load_rounds-Loaded :
      (s' : Space) (copied rounds : ℕ)
      → Loaded ph image s s' copied
      → copied ≤ ph.p_memsz
      → ph.p_memsz - copied < rounds
      → (copied < ph.p_memsz → Ready s' copied)
      → HasFrames s'.frames (pages_left ph copied + others)
      → (s2 : Space) × (load_rounds ph image s' copied rounds ≡ ok s2)
        × Loaded ph image s s2 ph.p_memsz
        × HasFrames s2.frames others
  load_rounds-Loaded s' copied zero w l u r frames = absurd (omega (arith, u))
  load_rounds-Loaded s' copied (suc rounds) w l u r frames =
      elim (Bool-cases (ltb copied ph.p_memsz)) [
        | inr e ↦
            let all : copied ≡ ph.p_memsz = ground (arith, e, l) in
            (
              s',
              rounds-done s' copied rounds all,
              subst (Loaded ph image s s') all w,
              HasFrames-le s'.frames others (pages_left ph copied + others) (omega arith) frames,
            )
        | inl e ↦
            let more : copied < ph.p_memsz = ground (arith, e) in
            let ready = r more in
            let count = pages_left ph copied + others - 1 in
            let frames' : HasFrames s'.frames (suc count) =
              HasFrames-le s'.frames (suc count) (pages_left ph copied + others)
                (ground (arith, more)) frames in
            let (next, n, x, size, w', left) =
              load_round-Loaded ph image v s s' copied count w more ready.aligned ready.unmapped
                frames' in
            let go = next_aligned copied n more size in
            let (s2, y, w2, rest) =
              load_rounds-Loaded next (copied + n) rounds w' (omega (arith, more, size))
                (omega (arith, more, u, size)) (λ k. next-Ready next (copied + n) w' k (go k))
                (HasFrames-le next.frames (pages_left ph (copied + n) + others) count
                  (next_count copied n more size) left) in
            (s2, rounds-more s' next copied (copied + n) rounds more x {s3 = s2} y, w2, rest)
      ]

  -- A segment goes into pages that are not mapped, with frames enough for them and `others` more: its
  -- bytes are in memory, the file's and then zeros, no frame that was taken and no other page has
  -- changed, and the others are still free.
  pub load_segment-Loaded :
      ((f : ℕ) → length (s.physical f) ≡ 0x1000)
      → HasFrames s.frames (pages_left ph 0 + others)
      → (s' : Space) × (load_segment ph image s ≡ ok s')
        × Loaded ph image s s' ph.p_memsz
        × HasFrames s'.frames others
  unfolding load_segment
  load_segment-Loaded sizes frames =
      load_rounds-Loaded s 0 (suc ph.p_memsz)
        (record {
          bytes = λ k u. absurd (omega (arith, u));
          owned = λ k u. absurd (omega (arith, u));
          kept = λ f t. refl;
          still = λ f t. t;
          before = λ n u. refl;
          after = λ n u. refl;
          sizes = sizes;
        })
        (omega arith) (omega arith)
        (λ more. record {
          aligned = λ u. absurd (omega (arith, u));
          unmapped = empty ((ph.p_vaddr + 0) / 0x1000) (omega arith) (omega (arith, more));
        })
        frames
