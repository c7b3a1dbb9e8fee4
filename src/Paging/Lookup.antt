-- ===== src/Paging/Lookup.antt =====
-- A directory as a map from page numbers to pages.
use native.Mathlib.Decide.{ℕ_discrete}
use akari.Prelude.{
  ℕ, ◌+◌, ◌*◌, ◌/◌, ◌%◌, ◌≤◌, ◌<◌, ◌≡◌, ◌≢◌, refl, ap, sym, subst, ◌∙◌, Bool, true, List, [], ◌∷◌,
  none, some, All, Option-cases, inl, inr, arith, length, ok, update,
}
use akari.Memory.{Page}
use akari.Paging.{PageDirectory, Paging, Tables, blank_page, make_table, get_page}

unfoldable pub page_in : Tables → PageDirectory → ℕ → Page
page_in tables d n = elim (d.tables (n / 1024)) [
  | none ↦ blank_page
  | some table ↦ tables table (n % 1024)
]

abbrev pub page_at : Paging → ℕ → Page
page_at p = page_in p.tables p.directory

-- No table stands at two places, and the tables to come are not in use.
abbrev pub Fresh : PageDirectory → List (ℕ × ℕ) → Type 0
Fresh d [] = Unit
Fresh d (a ∷ answers) =
    ((i : ℕ) → d.tables i ≢ some a.0) × All (λ b. a.0 ≢ b.0) answers × Fresh d answers

pub record IsPaging (p : Paging) : Type 0 where
  pub once :
      (i j table : ℕ)
      → p.directory.tables i ≡ some table
      → p.directory.tables j ≡ some table
      → i ≡ j
  pub fresh : Fresh p.directory p.answers

-- What `getPage` finds or makes: the entry for the page, and no other page.
pub record Found (p : Paging) (n table entry : ℕ) (p' : Paging) : Type 0 where
  pub valid : IsPaging p'
  pub same : (k : ℕ) → page_at p' k ≡ page_at p k
  pub here : p'.directory.tables (n / 1024) ≡ some table
  pub at : entry ≡ n % 1024
  pub left : length p.answers ≤ length p'.answers + 1

pub page_in-none :
    (t : Tables) (d : PageDirectory) (n : ℕ)
    → d.tables (n / 1024) ≡ none
    → page_in t d n ≡ blank_page
unfolding page_in
page_in-none t d n e = ground (arith, e)

pub page_in-some :
    (t : Tables) (d : PageDirectory) (n table : ℕ)
    → d.tables (n / 1024) ≡ some table
    → page_in t d n ≡ t table (n % 1024)
unfolding page_in
page_in-some t d n table e = ground (arith, e)

module _ (p : Paging) (v : IsPaging p) (idx new phys : ℕ) (rest : List (ℕ × ℕ))
    (empty : p.directory.tables idx ≡ none)
    (unused : (i : ℕ) → p.directory.tables i ≢ some new) where
  abbrev made : Paging
  made = record {
    tables = update p.tables new (λ entry. blank_page);
    directory = record p.directory {
      tables = update p.directory.tables idx (some new);
      table_physicals = update p.directory.table_physicals idx (phys / 8 * 8 + 7);
    };
    answers = rest;
  }

  made-here : made.directory.tables idx ≡ some new
  made-here = ground arith

  made-other : (i : ℕ) → idx ≢ i → made.directory.tables i ≡ p.directory.tables i
  made-other i n = ground (arith, n)

  made-page : (k : ℕ) → page_at made k ≡ page_at p k
  made-page k = elim (ℕ_discrete idx (k / 1024)) [
    | yes e ↦
        page_in-some made.tables made.directory k new (ap made.directory.tables (sym e) ∙ made-here)
        ∙ ground arith
        ∙ sym (page_in-none p.tables p.directory k (ap p.directory.tables (sym e) ∙ empty))
    | no n ↦ elim (Option-cases (p.directory.tables (k / 1024))) [
      | inl e ↦
          page_in-none made.tables made.directory k (made-other (k / 1024) n ∙ e)
          ∙ sym (page_in-none p.tables p.directory k e)
      | inr (table, e) ↦
          let other : new ≢ table = λ s. unused (k / 1024) (e ∙ ap some (sym s)) in
          page_in-some made.tables made.directory k table (made-other (k / 1024) n ∙ e)
          ∙ ground (arith, other)
          ∙ sym (page_in-some p.tables p.directory k table e)
    ]
  ]

  made-once :
      (i j table : ℕ)
      → made.directory.tables i ≡ some table
      → made.directory.tables j ≡ some table
      → i ≡ j
  made-once i j table e f = elim (ℕ_discrete idx i) [
    | yes a ↦ elim (ℕ_discrete idx j) [
      | yes b ↦ sym a ∙ b
      | no b ↦ absurd (
          unused j
            (sym (made-other j b) ∙ f ∙ sym e ∙ ap made.directory.tables (sym a) ∙ made-here))
    ]
    | no a ↦ elim (ℕ_discrete idx j) [
      | yes b ↦ absurd (
          unused i
            (sym (made-other i a) ∙ e ∙ sym f ∙ ap made.directory.tables (sym b) ∙ made-here))
      | no b ↦ v.once i j table (sym (made-other i a) ∙ e) (sym (made-other j b) ∙ f)
    ]
  ]

  made-Fresh :
      (answers : List (ℕ × ℕ))
      → All (λ b. new ≢ b.0) answers
      → Fresh p.directory answers
      → Fresh made.directory answers
  made-Fresh [] n h = tt
  made-Fresh (a ∷ answers) (n, ns) (h, d, hs) = (
    λ i. elim (ℕ_discrete idx i) [
      | yes e ↦ λ q. n (ground (arith, sym (ap made.directory.tables (sym e) ∙ made-here) ∙ q))
      | no e ↦ λ q. h i (sym (made-other i e) ∙ q)
    ],
    d,
    made-Fresh answers ns hs,
  )

-- What `getPage` returns.
abbrev pub Gets : Paging → ℕ → Type 0
Gets p addr =
    (table : ℕ) × (entry : ℕ) × (p' : Paging) × (get_page p addr true
      ≡ ok (some (table, entry), p'))
    × Found p (addr / 0x1000) table entry p'

pub get_page-old :
    (p : Paging) (addr : ℕ) (make : Bool) (table : ℕ)
    → p.directory.tables (addr / 0x1000 / 1024) ≡ some table
    → get_page p addr make ≡ ok (some (table, addr / 0x1000 % 1024), p)
unfolding get_page
get_page-old p addr make table e = ground (arith, e)

get_page-new :
    (p : Paging) (addr : ℕ)
    → p.directory.tables (addr / 0x1000 / 1024) ≡ none
    → get_page p addr true ≡ make_table p (addr / 0x1000 / 1024) (addr / 0x1000 % 1024) p.answers
unfolding get_page
get_page-new p addr e = ground (arith, e)

make_table-Found :
    (p : Paging) (n : ℕ) (answers : List (ℕ × ℕ))
    → IsPaging p
    → p.directory.tables (n / 1024) ≡ none
    → p.answers ≡ answers
    → 0 < length answers
    → (table : ℕ) × (entry : ℕ) × (p' : Paging) × (make_table p (n / 1024) (n % 1024) answers
        ≡ ok (some (table, entry), p'))
      × Found p n table entry p'
unfolding make_table
make_table-Found p n [] v e same l = absurd (omega (arith, l))
make_table-Found p n ((new, phys) ∷ rest) v e same l =
    let (unused, apart, fresh) = subst (Fresh p.directory) same v.fresh in
    let idx = n / 1024 in
    (
      new,
      n % 1024,
      made p v idx new phys rest e unused,
      refl,
      record {
        valid = record {
          once = made-once p v idx new phys rest e unused;
          fresh = made-Fresh p v idx new phys rest e unused rest apart fresh;
        };
        same = made-page p v idx new phys rest e unused;
        here = made-here p v idx new phys rest e unused;
        at = refl;
        left = omega (arith, ap length same);
      },
    )

-- With a table to allocate, `getPage` succeeds, and no page changes.
pub get_page-Found : (p : Paging) (addr : ℕ) → IsPaging p → 0 < length p.answers → Gets p addr
get_page-Found p addr v l = elim (Option-cases (p.directory.tables (addr / 0x1000 / 1024))) [
  | inl e ↦
      let (table, entry, p', x, w) = make_table-Found p (addr / 0x1000) p.answers v e refl l in
      (table, entry, p', get_page-new p addr e ∙ x, w)
  | inr (table, e) ↦ (
    table,
    addr / 0x1000 % 1024,
    p,
    get_page-old p addr true table e,
    record { valid = v; same = λ k. refl; here = e; at = refl; left = omega arith },
  )
]
