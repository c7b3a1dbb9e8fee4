-- ===== src/Paging/Range.antt =====
-- Pages changed through the pointers that `getPage` gives, and a range of them.
use native.Mathlib.Decide.{ℕ_discrete}
use akari.Prelude.{
  ℕ, zero, suc, ◌+◌, ◌-◌, ◌*◌, ◌/◌, ◌%◌, ◌≤◌, ◌<◌, ◌≡◌, ◌≢◌, refl, ap, sym, subst, ◌∙◌, Bool, true,
  false, none, some, Option-cases, Bool-cases, inl, inr, arith, leb, length, ok, update,
  update-same, update-other, add32, u32_mod,
}
use akari.Memory.{Page}
use akari.Paging.{Paging, get_page, store_page, map_page, map_physical_mem, phys_addr}
use akari.Paging.Lookup.{
  page_at, page_in-none, page_in-some, IsPaging, get_page-Found, get_page-old,
}

module _ (p : Paging) (v : IsPaging p) (n table entry : ℕ) (page : Page)
    (here : p.directory.tables (n / 1024) ≡ some table) (at : entry ≡ n % 1024) where
  abbrev stored : Paging
  stored = record p { tables = update p.tables table (update (p.tables table) entry page) }

  same_table :
      (k : ℕ)
      → n / 1024 ≡ k / 1024
      → page_at stored k ≡ update (p.tables table) entry page (k % 1024)
  same_table k e =
      page_in-some stored.tables p.directory k table (ap p.directory.tables (sym e) ∙ here)
      ∙ ap (λ f. f (k % 1024))
          (update-same p.tables table (update (p.tables table) entry page) table refl)

  stored-here : page_at stored n ≡ page
  stored-here = same_table n refl ∙ update-same (p.tables table) entry page (n % 1024) at

  stored-other : (k : ℕ) → n ≢ k → page_at stored k ≡ page_at p k
  stored-other k m = elim (ℕ_discrete (n / 1024) (k / 1024)) [
    | yes e ↦
        same_table k e
        ∙ update-other (p.tables table) entry page (k % 1024) (λ q. m (omega (arith, e, at, q)))
        ∙ sym (page_in-some p.tables p.directory k table (ap p.directory.tables (sym e) ∙ here))
    | no d ↦ elim (Option-cases (p.directory.tables (k / 1024))) [
      | inl e ↦
          page_in-none stored.tables p.directory k e ∙ sym (page_in-none p.tables p.directory k e)
      | inr (other, e) ↦
          page_in-some stored.tables p.directory k other e
          ∙ ap (λ f. f (k % 1024))
              (update-other p.tables table (update (p.tables table) entry page) other
                (λ q. d (v.once (n / 1024) (k / 1024) table here (e ∙ ap some (sym q)))))
          ∙ sym (page_in-some p.tables p.directory k other e)
    ]
  ]

-- A page as `mapPhysicalMem` leaves it.
abbrev pub mapped : Bool → ℕ → Page → Page
mapped readwrite frame page = record page {
  present = true;
  readwrite = readwrite;
  user = true;
  page_address = frame;
}

pub record MapsPage (p p' : Paging) (n frame : ℕ) (readwrite : Bool) : Type 0 where
  pub valid : IsPaging p'
  pub here : page_at p' n ≡ mapped readwrite frame (page_at p n)
  pub others : (k : ℕ) → n ≢ k → page_at p' k ≡ page_at p k
  pub left : length p.answers ≤ length p'.answers + 1

pub map_page-MapsPage :
    (p : Paging) (virt phys : ℕ) (readwrite : Bool)
    → IsPaging p
    → 0 < length p.answers
    → (p' : Paging) × (map_page p virt phys readwrite ≡ ok p')
      × MapsPage p p' (virt / 0x1000) (phys / 0x1000) readwrite
unfolding map_page store_page
map_page-MapsPage p virt phys readwrite v l =
    let n = virt / 0x1000 in
    let (table, entry, q, x, w) = get_page-Found p virt v l in
    let old = q.tables table entry in
    let page = mapped readwrite (phys / 0x1000) old in
    let found : old ≡ page_at p n =
      ap (q.tables table) w.at
      ∙ sym (page_in-some q.tables q.directory n table w.here)
      ∙ w.same n in
    (
      record q { tables = update q.tables table (update (q.tables table) entry page) },
      ground (arith, x),
      record {
        valid = record { once = w.valid.once; fresh = w.valid.fresh };
        here =
            stored-here q w.valid n table entry page w.here w.at
            ∙ ap (mapped readwrite (phys / 0x1000)) found;
        others = λ k m. stored-other q w.valid n table entry page w.here w.at k m ∙ w.same k;
        left = w.left;
      },
    )

-- A range of pages, from those of `virt` and `phys` on.
pub record MapsRange (p p' : Paging) (virt to phys : ℕ) (readwrite : Bool) : Type 0 where
  pub valid : IsPaging p'
  pub inside :
      (i : ℕ)
      → virt + i * 0x1000 ≤ to
      → page_at p' (virt / 0x1000 + i)
        ≡ mapped readwrite (phys / 0x1000 + i) (page_at p (virt / 0x1000 + i))
  pub above :
      (i : ℕ)
      → to < virt + i * 0x1000
      → page_at p' (virt / 0x1000 + i) ≡ page_at p (virt / 0x1000 + i)
  pub below : (k : ℕ) → k < virt / 0x1000 → page_at p' k ≡ page_at p k

range-done :
    (p : Paging) (virt to phys : ℕ) (readwrite : Bool) (rounds : ℕ)
    → to < virt
    → map_physical_mem p virt to phys readwrite (suc rounds) ≡ ok p
unfolding map_physical_mem
range-done p virt to phys readwrite rounds u = ground (arith, u)

range-step :
    (p p1 : Paging) (virt to phys : ℕ) (readwrite : Bool) (rounds : ℕ)
    → virt ≤ to
    → map_page p virt phys readwrite ≡ ok p1
    → map_physical_mem p virt to phys readwrite (suc rounds)
      ≡ map_physical_mem p1 (add32 virt 0x1000) to (add32 phys 0x1000) readwrite rounds
unfolding map_physical_mem
range-step p p1 virt to phys readwrite rounds u e = ground (arith, u, e)

module _ (to : ℕ) (readwrite : Bool) (ends : to < u32_mod - 0x1000) where
  -- The range after a page, put behind this.
  range-cons :
      (p p1 p2 : Paging) (virt phys : ℕ)
      → virt ≤ to
      → MapsPage p p1 (virt / 0x1000) (phys / 0x1000) readwrite
      → MapsRange p1 p2 (virt + 0x1000) to (phys + 0x1000) readwrite
      → MapsRange p p2 virt to phys readwrite
  range-cons p p1 p2 virt phys u w r =
      let n = virt / 0x1000 in
      let next : (j : ℕ) → (virt + 0x1000) / 0x1000 + j ≡ n + suc j = λ j. omega arith in
      let frame : (j : ℕ) → (phys + 0x1000) / 0x1000 + j ≡ phys / 0x1000 + suc j =
        λ j. omega arith in
      let first : page_at p2 (n + 0) ≡ mapped readwrite (phys / 0x1000 + 0) (page_at p (n + 0)) =
        ap (page_at p2) {x = n + 0} {y = n} (omega arith)
        ∙ r.below n (omega arith)
        ∙ w.here
        ∙ ap (λ k. mapped readwrite (phys / 0x1000) (page_at p k)) {x = n} {y = n + 0} (omega arith)
        ∙ ap (λ k. mapped readwrite k (page_at p (n + 0))) {x = phys / 0x1000}
            {y = phys / 0x1000 + 0} (omega arith) in
      let one : (j : ℕ) → page_at p1 (n + suc j) ≡ page_at p (n + suc j) =
        λ j. w.others (n + suc j) (λ e. absurd (omega (arith, e))) in
      record {
        valid = r.valid;
        inside = inside_cases first (λ j h.
            ap (page_at p2) (sym (next j))
            ∙ r.inside j (omega (arith, h))
            ∙ ap (λ k. mapped readwrite k (page_at p1 ((virt + 0x1000) / 0x1000 + j))) (frame j)
            ∙ ap (λ k. mapped readwrite (phys / 0x1000 + suc j) (page_at p1 k)) (next j)
            ∙ ap (mapped readwrite (phys / 0x1000 + suc j)) (one j));
        above =
            above_cases (λ h. absurd (omega (arith, u, h)))
              (λ j h.
                ap (page_at p2) (sym (next j))
                ∙ r.above j (omega (arith, h))
                ∙ ap (page_at p1) (next j)
                ∙ one j);
        below =
            λ k l. r.below k (omega (arith, l)) ∙ w.others k (λ e. absurd (omega (arith, l, e)));
      }
    where
      inside_cases :
          page_at p2 (virt / 0x1000 + 0)
            ≡ mapped readwrite (phys / 0x1000 + 0) (page_at p (virt / 0x1000 + 0))
          → ((j : ℕ)
              → virt + suc j * 0x1000 ≤ to
              → page_at p2 (virt / 0x1000 + suc j)
                ≡ mapped readwrite (phys / 0x1000 + suc j) (page_at p (virt / 0x1000 + suc j)))
          → (i : ℕ) → virt + i * 0x1000 ≤ to
          → page_at p2 (virt / 0x1000 + i)
            ≡ mapped readwrite (phys / 0x1000 + i) (page_at p (virt / 0x1000 + i))
      inside_cases a b zero h = a
      inside_cases a b (suc j) h = b j h

      above_cases :
          (to < virt + 0 * 0x1000 → page_at p2 (virt / 0x1000 + 0) ≡ page_at p (virt / 0x1000 + 0))
          → ((j : ℕ)
              → to < virt + suc j * 0x1000
              → page_at p2 (virt / 0x1000 + suc j) ≡ page_at p (virt / 0x1000 + suc j))
          → (i : ℕ) → to < virt + i * 0x1000
          → page_at p2 (virt / 0x1000 + i) ≡ page_at p (virt / 0x1000 + i)
      above_cases a b zero h = a h
      above_cases a b (suc j) h = b j h

  -- `mapPhysicalMem` ends, with each page of the range mapped to its frame, and no other page changed.
  pub map_physical_mem-MapsRange :
      (p : Paging) (virt phys rounds : ℕ)
      → IsPaging p
      → (virt ≤ to → phys + (to - virt) < u32_mod - 0x1000)
      → 0 < rounds
      → to + 0x1000 < virt + rounds * 0x1000
      → to < virt + length p.answers * 0x1000
      → (p' : Paging) × (map_physical_mem p virt to phys readwrite rounds ≡ ok p')
        × MapsRange p p' virt to phys readwrite
  map_physical_mem-MapsRange p virt phys zero v f z r l = absurd (omega (arith, z))
  map_physical_mem-MapsRange p virt phys (suc rounds) v f z r l = elim (Bool-cases (leb virt to)) [
    | inr e ↦
        let past : to < virt = ground (arith, e) in
        (
          p,
          range-done p virt to phys readwrite rounds past,
          record {
            valid = v;
            inside = λ i h. absurd (omega (arith, past, h));
            above = λ i h. refl;
            below = λ k h. refl;
          },
        )
    | inl e ↦
        let u : virt ≤ to = ground (arith, e) in
        let fits = f u in
        let (p1, x, w) = map_page-MapsPage p virt phys readwrite v (omega (arith, u, l)) in
        let left = w.left in
        let (p2, y, m) =
          map_physical_mem-MapsRange p1 (virt + 0x1000) (phys + 0x1000) rounds w.valid
            (λ h. omega (arith, fits, h, u)) (omega (arith, u, r)) (omega (arith, r))
            (omega (arith, l, left)) in
        let virt' : add32 virt 0x1000 ≡ virt + 0x1000 = omega (arith, u, ends) in
        let phys' : add32 phys 0x1000 ≡ phys + 0x1000 = omega (arith, fits) in
        (
          p2,
          range-step p p1 virt to phys readwrite rounds u x
              ∙ ap (λ a. map_physical_mem p1 a to (add32 phys 0x1000) readwrite rounds) virt'
              ∙ ap (λ a. map_physical_mem p1 (virt + 0x1000) to a readwrite rounds) phys'
              ∙ y,
          range-cons p p1 p2 virt phys u w m,
        )
  ]

phys_addr-some :
    (p : Paging) (ptr table : ℕ)
    → p.directory.tables (ptr / 0x1000 / 1024) ≡ some table
    → phys_addr p ptr
      ≡ ok (((page_at p (ptr / 0x1000)).page_address * 0x1000 + ptr % 0x1000) % u32_mod)
unfolding phys_addr
phys_addr-some p ptr table e =
    let x = get_page-old p ptr false table e in
    let y = page_in-some p.tables p.directory (ptr / 0x1000) table e in ground (arith, x, y)

phys_addr-none :
    (p : Paging) (ptr : ℕ)
    → p.directory.tables (ptr / 0x1000 / 1024) ≡ none
    → phys_addr p ptr ≡ ok 0
unfolding phys_addr get_page
phys_addr-none p ptr e = ground (arith, e)

-- In a valid directory, with rounds and tables to allocate for every page, a range below the last page of
-- the addresses is mapped to physical memory below its last page, both starting at a page: `physAddr` of
-- an address in the range is then the physical address as far from the start, each page of the range leads
-- to its frame, and no other page changes.
pub phys_addr-map_physical_mem :
    (p : Paging) (virt to phys rounds ptr : ℕ) (readwrite : Bool)
    → IsPaging p
    → to < u32_mod - 0x1000
    → phys + (to - virt) < u32_mod - 0x1000
    → virt % 0x1000 ≡ 0
    → phys % 0x1000 ≡ 0
    → virt ≤ ptr
    → ptr ≤ to
    → to + 0x1000 < virt + rounds * 0x1000
    → to < virt + length p.answers * 0x1000
    → (p' : Paging) × (map_physical_mem p virt to phys readwrite rounds ≡ ok p')
      × (phys_addr p' ptr ≡ ok (phys + (ptr - virt)))
      × MapsRange p p' virt to phys readwrite
phys_addr-map_physical_mem p virt to phys rounds ptr readwrite v ends fits a b l h r n =
    let (p', x, m) =
      map_physical_mem-MapsRange to readwrite ends p virt phys rounds v (λ _. fits)
        (omega (arith, l, h, r)) r n in
    let i = ptr / 0x1000 - virt / 0x1000 in
    let at : virt / 0x1000 + i ≡ ptr / 0x1000 = omega (arith, l) in
    let page : page_at p' (ptr / 0x1000)
        ≡ mapped readwrite (phys / 0x1000 + i) (page_at p (ptr / 0x1000)) =
      subst (λ k. page_at p' k ≡ mapped readwrite (phys / 0x1000 + i) (page_at p k)) at
        (m.inside i (omega (arith, l, h, a))) in
    let present : (page_at p' (ptr / 0x1000)).present ≡ true = ap (λ q. q.present) page in
    let frame : (page_at p' (ptr / 0x1000)).page_address ≡ phys / 0x1000 + i =
      ap (λ q. q.page_address) page in
    elim (Option-cases (p'.directory.tables (ptr / 0x1000 / 1024))) [
      | inl e ↦
          let empty = ap (λ q. q.present) (page_in-none p'.tables p'.directory (ptr / 0x1000) e) in
          absurd (ground (arith, present, empty))
      | inr (table, e) ↦
          (p', x, phys_addr-some p' ptr table e ∙ ap ok (omega (arith, frame, a, b, l, h, fits)), m)
    ]
