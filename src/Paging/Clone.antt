-- ===== src/Paging/Clone.antt =====
-- `PageDirectory::clone`, and the tables of the kernel that it links.
use native.Mathlib.Decide.{ℕ_discrete}
use akari.Prelude.{
  Option, add32, ℕ, zero, suc, ◌+◌, ◌*◌, ◌/◌, ◌≤◌, ◌<◌, ◌≡◌, ◌≢◌, ◌⊎◌, refl, ap, sym, subst, ◌∙◌,
  none, some, Option-cases, inl, inr, arith, ok, panic, update, update-same, update-other,
}
use akari.Paging.{PageDirectory, Tables, clone_tables, clone, allocate_directory}
use akari.Paging.Lookup.{page_in, page_in-none, page_in-some}

abbrev linked : PageDirectory → PageDirectory → ℕ → ℕ → PageDirectory
linked from to i table = record to {
  tables = update to.tables i (some table);
  table_physicals = update to.table_physicals i (from.table_physicals i / 8 * 8 + 5);
}

-- The entry that the processor reads for a table: none, or its address, present and for the user, and not
-- writable.
abbrev table_entry : Option ℕ → ℕ → ℕ
table_entry none physical = 0
table_entry (some table) physical = physical / 8 * 8 + 5

abbrev pub read_only_entry : PageDirectory → ℕ → ℕ
read_only_entry from i = table_entry (from.tables i) (from.table_physicals i)

-- Table `i` of a directory is the kernel's, when it has one.
abbrev pub OfKernel : PageDirectory → PageDirectory → ℕ → Type 0
OfKernel kernel from i = (from.tables i ≡ none) ⊎ (from.tables i ≡ kernel.tables i)

module _ (kernel from : PageDirectory) where
  clone-none :
      (to : PageDirectory) (i rounds : ℕ)
      → from.tables i ≡ none
      → clone_tables kernel from to i (suc rounds) ≡ clone_tables kernel from to (i + 1) rounds
  unfolding clone_tables
  clone-none to i rounds e = ground (arith, e)

  clone-link :
      (to : PageDirectory) (i rounds table : ℕ)
      → from.tables i ≡ some table
      → kernel.tables i ≡ some table
      → clone_tables kernel from to i (suc rounds)
        ≡ clone_tables kernel from (linked from to i table) (i + 1) rounds
  unfolding clone_tables
  clone-link to i rounds table e f = ground (arith, e, f)

  clone-foreign :
      (to : PageDirectory) (i rounds table : ℕ)
      → from.tables i ≡ some table
      → kernel.tables i ≢ some table
      → clone_tables kernel from to i (suc rounds) ≡ panic
  unfolding clone_tables
  clone-foreign to i rounds table e n = elim (Option-cases (kernel.tables i)) [
    | inl f ↦ ground (arith, e, f)
    | inr (other, f) ↦ let m : other ≢ table = λ q. n (f ∙ ap some q) in ground (arith, e, f, m)
  ]

  -- The tables before one are copied, and those from it on are still to be.
  record Copied (to : PageDirectory) (i : ℕ) : Type 0 where
    before : (j : ℕ) → j < i → to.tables j ≡ from.tables j
    after : (j : ℕ) → i ≤ j → to.tables j ≡ none
    entered : (j : ℕ) → j < i → to.table_physicals j ≡ read_only_entry from j
    blank : (j : ℕ) → i ≤ j → to.table_physicals j ≡ 0

  Copied-none :
      (to : PageDirectory) (i : ℕ) → Copied to i → from.tables i ≡ none → Copied to (i + 1)
  Copied-none to i c e = record {
    before = λ j u. elim (ℕ_discrete i j) [
      | yes q ↦ c.after j (omega (arith, q)) ∙ sym e ∙ ap from.tables q
      | no n ↦ c.before j (omega (arith, u, n))
    ];
    after = λ j u. c.after j (omega (arith, u));
    entered = λ j u. elim (ℕ_discrete i j) [
      | yes q ↦
          c.blank j (omega (arith, q))
          ∙ ap (λ o. table_entry o (from.table_physicals i)) (sym e)
          ∙ ap (read_only_entry from) q
      | no n ↦ c.entered j (omega (arith, u, n))
    ];
    blank = λ j u. c.blank j (omega (arith, u));
  }

  Copied-link :
      (to : PageDirectory) (i table : ℕ)
      → Copied to i
      → from.tables i ≡ some table
      → Copied (linked from to i table) (i + 1)
  Copied-link to i table c e = record {
    before = λ j u. elim (ℕ_discrete i j) [
      | yes q ↦ update-same to.tables i (some table) j q ∙ sym e ∙ ap from.tables q
      | no n ↦ update-other to.tables i (some table) j n ∙ c.before j (omega (arith, u, n))
    ];
    after = λ j u.
        update-other to.tables i (some table) j (λ q. absurd (omega (arith, q, u)))
        ∙ c.after j (omega (arith, u));
    entered = λ j u. elim (ℕ_discrete i j) [
      | yes q ↦
          update-same to.table_physicals i (from.table_physicals i / 8 * 8 + 5) j q
          ∙ ap (λ o. table_entry o (from.table_physicals i)) (sym e)
          ∙ ap (read_only_entry from) q
      | no n ↦
          update-other to.table_physicals i (from.table_physicals i / 8 * 8 + 5) j n
          ∙ c.entered j (omega (arith, u, n))
    ];
    blank = λ j u.
        update-other to.table_physicals i (from.table_physicals i / 8 * 8 + 5) j
          (λ q. absurd (omega (arith, q, u)))
        ∙ c.blank j (omega (arith, u));
  }

  clone_tables-Copied :
      (to : PageDirectory) (i rounds : ℕ)
      → ((j : ℕ) → i ≤ j → j < i + rounds → OfKernel kernel from j)
      → Copied to i
      → (d : PageDirectory) × (clone_tables kernel from to i rounds ≡ ok d)
        × (d.physical_addr ≡ to.physical_addr)
        × Copied d (i + rounds)
  unfolding clone_tables
  clone_tables-Copied to i zero h c = (to, refl, refl, subst (Copied to) (omega arith) c)
  clone_tables-Copied to i (suc rounds) h c = elim (Option-cases (from.tables i)) [
    | inl e ↦
        let (d, x, p, w) =
          clone_tables-Copied to (i + 1) rounds (λ j u l. h j (omega (arith, u)) (omega (arith, l)))
            (Copied-none to i c e) in
        (d, clone-none to i rounds e ∙ x, p, subst (Copied d) (omega arith) w)
    | inr (table, e) ↦
        let same : kernel.tables i ≡ some table = elim (h i (omega arith) (omega arith)) [
          | inl f ↦ absurd (ground (arith, e, f))
          | inr f ↦ sym f ∙ e
        ] in
        let (d, x, p, w) =
          clone_tables-Copied (linked from to i table) (i + 1) rounds
            (λ j u l. h j (omega (arith, u)) (omega (arith, l))) (Copied-link to i table c e) in
        (d, clone-link to i rounds table e same ∙ x, p, subst (Copied d) (omega arith) w)
  ]

  -- Up to a table that is not the kernel's, and no further.
  clone_tables-panic :
      (to : PageDirectory) (i rounds k table : ℕ)
      → i ≤ k
      → k < i + rounds
      → from.tables k ≡ some table
      → kernel.tables k ≢ some table
      → clone_tables kernel from to i rounds ≡ panic
  clone_tables-panic to i zero k table u l e n = absurd (omega (arith, u, l))
  clone_tables-panic to i (suc rounds) k table u l e n = elim (ℕ_discrete i k) [
    | yes q ↦
        clone-foreign to i rounds table (ap from.tables q ∙ e)
          (λ f. n (sym (ap kernel.tables q) ∙ f))
    | no m ↦ elim (Option-cases (from.tables i)) [
      | inl f ↦
          clone-none to i rounds f
          ∙ clone_tables-panic to (i + 1) rounds k table (omega (arith, u, m)) (omega (arith, l)) e
              n
      | inr (other, f) ↦ elim (Option-cases (kernel.tables i)) [
        | inl g ↦ clone-foreign to i rounds other f (λ q. absurd (ground (arith, g, q)))
        | inr (third, g) ↦ elim (ℕ_discrete third other) [
          | yes q ↦
              clone-link to i rounds other f (g ∙ ap some q)
              ∙ clone_tables-panic (linked from to i other) (i + 1) rounds k table
                  (omega (arith, u, m)) (omega (arith, l)) e n
          | no q ↦ clone-foreign to i rounds other f (λ r. q (ground (arith, g, r)))
        ]
      ]
    ]
  ]

  same_page :
      (t : Tables) (d : PageDirectory) (n : ℕ)
      → d.tables (n / 1024) ≡ from.tables (n / 1024)
      → page_in t d n ≡ page_in t from n
  same_page t d n e = elim (Option-cases (from.tables (n / 1024))) [
    | inl f ↦ page_in-none t d n (e ∙ f) ∙ sym (page_in-none t from n f)
    | inr (table, f) ↦ page_in-some t d n table (e ∙ f) ∙ sym (page_in-some t from n table f)
  ]

  -- A directory whose tables are all the kernel's is cloned. The clone leads to the same pages of the same
  -- tables, whatever these come to hold, and the entries that the processor reads in it are the address
  -- of each of these tables, present and for the user and not writable, and 0 for the others; its own
  -- address is that of its table of such entries, a page after its start.
  pub clone-page_in :
      (phys : ℕ)
      → ((i : ℕ) → i < 1024 → OfKernel kernel from i)
      → (d : PageDirectory) × (clone kernel from phys ≡ ok d)
        × ((t : Tables) (n : ℕ) → n < 0x100000 → page_in t d n ≡ page_in t from n)
        × ((i : ℕ) → i < 1024 → d.table_physicals i ≡ read_only_entry from i)
        × (d.physical_addr ≡ add32 phys 0x1000)
  unfolding clone
  clone-page_in phys h =
      let (d, x, p, c) =
        clone_tables-Copied (allocate_directory phys) 0 1024 (λ j u l. h j (omega (arith, l)))
          (record {
            before = λ j u. absurd (omega (arith, u));
            after = λ j u. refl;
            entered = λ j u. absurd (omega (arith, u));
            blank = λ j u. refl;
          }) in
      (
        d,
        x,
        λ t n u. same_page t d n (c.before (n / 1024) (omega (arith, u))),
        λ i u. c.entered i u,
        p,
      )

  -- With a table that is not the kernel's, a clone panics.
  pub clone-panic :
      (phys i table : ℕ)
      → i < 1024
      → from.tables i ≡ some table
      → kernel.tables i ≢ some table
      → clone kernel from phys ≡ panic
  unfolding clone
  clone-panic phys i table u e n =
      clone_tables-panic (allocate_directory phys) 0 1024 i table (omega arith) (omega (arith, u)) e
        n
