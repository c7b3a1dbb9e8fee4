-- ===== src/Ata/Dma.antt =====
-- Buffers whose bytes are one after another in physical memory, which reads by DMA need.
use akari.Prelude.{ℕ, zero, suc, ◌+◌, ◌≤◌, ◌<◌, ◌≡◌, ap, sym, ◌∙◌, true, ok, arith, subst}
use akari.Paging.{Paging, phys_addr}
use akari.Ata.{Service, Memory, lands}

-- The bytes from a virtual address on are those from a physical one on.
abbrev pub Contiguous : Paging → ℕ → ℕ → Type 0
Contiguous p buffer n = (phys : ℕ) × ((i : ℕ) → i < n → phys_addr p (buffer + i) ≡ ok (phys + i))

-- A part of such a buffer.
pub Contiguous-part :
    (p : Paging) (buffer n o k : ℕ)
    → o + k ≤ n
    → Contiguous p buffer n
    → Contiguous p (buffer + o) k
Contiguous-part p buffer n o k h (phys, c) = (
  phys + o,
  λ i u.
      ap (phys_addr p) {x = buffer + o + i} {y = buffer + (o + i)} (omega arith)
      ∙ c (o + i) (omega (arith, u, h))
      ∙ ap ok {x = phys + (o + i)} {y = phys + o + i} (omega arith),
)

-- What is put from its physical address on lands in it.
pub lands-Contiguous :
    (p : Paging) (buffer phys n : ℕ)
    → ((i : ℕ) → i < n → phys_addr p (buffer + i) ≡ ok (phys + i))
    → lands p buffer phys n ≡ true
unfolding lands
lands-Contiguous p buffer phys zero c = ground arith
lands-Contiguous p buffer phys (suc n) c =
    let here : phys_addr p buffer ≡ ok phys =
      ap (phys_addr p) {x = buffer} {y = buffer + 0} (omega arith)
      ∙ c 0 (omega arith)
      ∙ ap ok {x = phys + 0} {y = phys} (omega arith) in
    let rest = lands-Contiguous p (buffer + 1) (phys + 1) n (λ i u.
      ap (phys_addr p) {x = buffer + 1 + i} {y = buffer + suc i} (omega arith)
      ∙ c (suc i) (omega (arith, u))
      ∙ ap ok {x = phys + suc i} {y = phys + 1 + i} (omega arith)) in
    ground (arith, here, rest)

-- What a service that uses DMA needs of a buffer.
abbrev pub ForDma : {D : Type 0} → Service D → ℕ → ℕ → Type 0
ForDma s buffer n = s.dma_enabled ≡ true → Contiguous s.memory.paging buffer n

pub ForDma-part :
    {D : Type 0} (s : Service D) (buffer n o k : ℕ)
    → o + k ≤ n
    → ForDma s buffer n
    → ForDma s (buffer + o) k
ForDma-part s buffer n o k h c e = Contiguous-part s.memory.paging buffer n o k h (c e)

-- A service with the same memory and the same use of DMA has the same buffers.
pub ForDma-kept :
    {D : Type 0} (s s' : Service D) (of_memory : Memory → ℕ) (n : ℕ)
    → s'.dma_enabled ≡ s.dma_enabled
    → s'.memory ≡ s.memory
    → ForDma s (of_memory s.memory) n
    → ForDma s' (of_memory s'.memory) n
ForDma-kept s s' of_memory n d k c e =
    subst (λ (mem : Memory). Contiguous mem.paging (of_memory mem) n) (sym k) (c (sym d ∙ e))
