-- ===== src/Elf/Chunk.antt =====
-- The bytes that a round of the loader copies.
use akari.Prelude.{
  ℕ, ◌+◌, ◌-◌, ◌^◌, ◌≤◌, ◌<◌, ◌≡◌, refl, ap, sym, ◌∙◌, List, [], ◌++◌, some, Option, get_elem?,
  length, replicate, slice, ok, arith, ltb, ◌==◌, if◌then◌else◌, Bool-cases, inl, inr, length-take,
  length-drop, length-append, length-replicate, get_elem?-take, get_elem?-drop, get_elem?-replicate,
  get_elem?-append_lt, get_elem?-append_ge, drop, sub32, s32_rank, true, false,
}
use akari.Elf.{ProgramHeader, image_bytes, chunk, file_left}

-- Byte `k` of a segment in memory: the file's, and then zeros.
abbrev pub segment_byte : ProgramHeader → List ℕ → ℕ → Option ℕ
segment_byte ph image k = if ltb k ph.p_filesz then get_elem? image (ph.p_offset + k) else some 0

-- A segment that a loader can take.
pub record IsSegment (ph : ProgramHeader) (image : List ℕ) : Type 0 where
  pub ordered : ph.p_filesz ≤ ph.p_memsz
  pub small : ph.p_memsz < 2 ^ 31
  pub below : ph.p_vaddr + ph.p_memsz < 2 ^ 32
  pub stored : ph.p_offset + ph.p_filesz ≤ length image

-- What a round wants: `copy` bytes of the segment from `copied` on.
pub record Chunk (ph : ProgramHeader) (image : List ℕ) (copied copy : ℕ) : Type 0 where
  pub bytes : List ℕ
  pub runs : chunk ph image copied copy ≡ ok bytes
  pub size : length bytes ≡ copy
  pub same : (i : ℕ) → i < copy → get_elem? bytes i ≡ segment_byte ph image (copied + i)

module _ (ph : ProgramHeader) (image : List ℕ) (v : IsSegment ph image) (copied copy : ℕ)
    (inside : copied + copy ≤ ph.p_memsz) where
  from_file :
      (count i : ℕ)
      → i < count
      → copied + count ≤ ph.p_filesz
      → get_elem? (slice image (ph.p_offset + copied) count) i ≡ segment_byte ph image (copied + i)
  from_file count i u h =
      let in_file : ltb (copied + i) ph.p_filesz ≡ true = ground (arith, u, h) in
      let at : get_elem? image (ph.p_offset + copied + i)
          ≡ get_elem? image (ph.p_offset + (copied + i)) =
        ap (get_elem? image) (omega arith) in
      let x =
        get_elem?-take count (drop (ph.p_offset + copied) image) i u
        ∙ get_elem?-drop (ph.p_offset + copied) image i in
      ground (arith, in_file, at, x)

  length_slice :
      (count : ℕ)
      → copied + count ≤ ph.p_filesz
      → length (slice image (ph.p_offset + copied) count) ≡ count
  length_slice count h =
      let stored = v.stored in
      omega (
        arith,
        h,
        stored,
        length-take count (drop (ph.p_offset + copied) image),
        length-drop (ph.p_offset + copied) image,
      )

  image_bytes-slice :
      (count : ℕ)
      → copied + count ≤ ph.p_filesz
      → image_bytes image (ph.p_offset + copied) count
        ≡ ok (slice image (ph.p_offset + copied) count)
  unfolding image_bytes
  image_bytes-slice count h = let stored = v.stored in ground (arith, h, stored)

  past_file : (i : ℕ) → ph.p_filesz ≤ i → segment_byte ph image i ≡ some 0
  past_file i h = ground (arith, h)

  chunk-whole :
      copied + copy ≤ ph.p_filesz
      → 0 < copy
      → chunk ph image copied copy ≡ ok (slice image (ph.p_offset + copied) copy)
  unfolding chunk
  chunk-whole h p =
      let small = v.small in
      let ordered = v.ordered in
      let x = image_bytes-slice copy h in
      let left : sub32 ph.p_filesz copied ≡ ph.p_filesz - copied =
        omega (arith, h, small, ordered) in
      let rank : ltb (s32_rank (sub32 ph.p_filesz copied)) (s32_rank copy) ≡ false =
        ground (arith, ap s32_rank left, h, small, ordered) in
      let filled : ph.p_filesz == 0 ≡ false = ground (arith, h, p) in
      elim (Bool-cases (ltb ph.p_filesz ph.p_memsz)) [
        | inl less ↦ ground (arith, x, rank, filled, less)
        | inr same ↦
            let eq : ph.p_filesz == ph.p_memsz ≡ true = ground (arith, same, ordered) in
            ground (arith, x, filled, same, eq)
      ]

  chunk-padded :
      (left : ℕ) (bytes : List ℕ)
      → 0 < copy
      → file_left (sub32 ph.p_filesz copied) ≡ left
      → ltb (s32_rank (sub32 ph.p_filesz copied)) (s32_rank copy) ≡ true
      → ph.p_filesz < ph.p_memsz
      → (ph.p_filesz == 0 ≡ false)
      → (if left == 0 then ok [] else image_bytes image (ph.p_offset + copied) left) ≡ ok bytes
      → chunk ph image copied copy ≡ ok (bytes ++ replicate (copy - left) 0)
  unfolding chunk
  chunk-padded left bytes p e rank less filled x = ground (arith, p, e, rank, less, filled, x)

  chunk-zero : ph.p_filesz ≡ 0 → chunk ph image copied copy ≡ ok (replicate copy 0)
  unfolding chunk
  chunk-zero z = ground (arith, z)

  -- All of the bytes are the file's.
  all_file : copied + copy ≤ ph.p_filesz → 0 < copy → Chunk ph image copied copy
  all_file h p = record {
    bytes = slice image (ph.p_offset + copied) copy;
    runs = chunk-whole h p;
    size = length_slice copy h;
    same = λ i u. from_file copy i u h;
  }

  no_file-chunk :
      ph.p_filesz ≤ copied → 0 < copy → chunk ph image copied copy ≡ ok (replicate copy 0)
  no_file-chunk h p =
      let small = v.small in
      let left = sub32 ph.p_filesz copied in
      elim (Bool-cases (ph.p_filesz == 0)) [
        | inl z ↦ chunk-zero (ground (arith, z))
        | inr filled ↦
            let low : s32_rank left ≤ 2 ^ 31 = omega (arith, h, p, inside, small) in
            let none : file_left left ≡ 0 = ground (arith, h, p, inside, small, low) in
            let rank : ltb (s32_rank left) (s32_rank copy) ≡ true =
              ground (arith, h, p, inside, small, low) in
            chunk-padded 0 [] p none rank (omega (arith, h, p, inside)) filled refl
            ∙ ap (λ k. ok ([] ++ replicate k 0)) {x = copy - 0} {y = copy} (omega arith)
      ]

  -- None are.
  no_file : ph.p_filesz ≤ copied → 0 < copy → Chunk ph image copied copy
  no_file h p = record {
    bytes = replicate copy 0;
    runs = no_file-chunk h p;
    size = length-replicate copy 0;
    same = λ i u. get_elem?-replicate copy 0 i u ∙ sym (past_file (copied + i) (omega (arith, h)));
  }

  -- The first are.
  some_file : copied < ph.p_filesz → ph.p_filesz < copied + copy → Chunk ph image copied copy
  some_file l u =
      let small = v.small in
      let left = ph.p_filesz - copied in
      let word : sub32 ph.p_filesz copied ≡ left = omega (arith, l, u, small, inside) in
      let head = slice image (ph.p_offset + copied) left in
      let size : length head ≡ left = length_slice left (omega (arith, l)) in
      let x = image_bytes-slice left (omega (arith, l)) in
      let kept : file_left (sub32 ph.p_filesz copied) ≡ left =
        ap file_left word ∙ ground (arith, l, u, small, inside) in
      let rank : ltb (s32_rank (sub32 ph.p_filesz copied)) (s32_rank copy) ≡ true =
        ap (λ k. ltb (s32_rank k) (s32_rank copy)) word ∙ ground (arith, l, u, small, inside) in
      let filled : left == 0 ≡ false = ground (arith, l) in
      record {
        bytes = head ++ replicate (copy - left) 0;
        runs =
            chunk-padded left head (omega (arith, l, u)) kept rank (omega (arith, u, inside))
              (ground (arith, l)) (ground (arith, filled, x));
        size = omega (
          arith,
          l,
          u,
          size,
          length-append head (replicate (copy - left) 0),
          length-replicate {A = ℕ} (copy - left) 0,
        );
        same = λ i b. elim (Bool-cases (ltb i left)) [
          | inl first ↦
              let n : i < left = ground (arith, first) in
              get_elem?-append_lt head (replicate (copy - left) 0) i (omega (arith, n, size))
              ∙ from_file left i n (omega (arith, l))
          | inr rest ↦
              let n : left ≤ i = ground (arith, rest) in
              get_elem?-append_ge head (replicate (copy - left) 0) i (omega (arith, n, size))
              ∙ get_elem?-replicate (copy - left) 0 (i - length head) (omega (arith, n, b, size))
              ∙ sym (past_file (copied + i) (omega (arith, n, l)))
        ];
      }

  pub chunk-Chunk : 0 < copy → Chunk ph image copied copy
  chunk-Chunk p = elim (Bool-cases (ltb copied ph.p_filesz)) [
    | inr e ↦ no_file (ground (arith, e)) p
    | inl e ↦ elim (Bool-cases (ltb ph.p_filesz (copied + copy))) [
      | inl f ↦ some_file (ground (arith, e)) (ground (arith, f))
      | inr f ↦ all_file (ground (arith, f)) p
    ]
  ]
