-- ===== src/LinkedList/Tests.antt =====
-- A list of two items, pushed at either end, and one of three.
use akari.Prelude.{◌==◌, ℕ, ◌≡◌, ◌⊎◌, refl, List, [], ◌∷◌, some, arith, ok}
use akari.LinkedList.{
  LinkedList, empty_list, push_front, push_back, pop_front, forward, backward, write,
}
use akari.LinkedList.Change.{pop_back, remove_from, insert, insert_inner, erase, set_next, set_prev}
use akari.LinkedList.Linked.{Holds, linked_nil, linked_cons}
use akari.LinkedList.Erase.{erase-Holds}
use akari.LinkedList.Walk.{
  Reaches-changes, Reaches, starts, pushes_back, pushes_front, reversed, Reaches-items,
}

abbrev one : LinkedList ℕ
one = record {
  nodes = write empty_list.nodes 16 (some (record { item = 7; next = 0; prev = 0 }));
  begin = 16;
  end = 16;
}

abbrev two : LinkedList ℕ
two = record {
  nodes =
      write (write one.nodes 32 (some (record { item = 8; next = 16; prev = 0 }))) 16
        (some (record { item = 7; next = 0; prev = 32 }));
  begin = 32;
  end = 16;
}

abbrev cells : List (ℕ × ℕ)
cells = (32, 8) ∷ (16, 7) ∷ []

two-Reaches : Reaches two cells
unfolding push_front push_back write
two-Reaches =
    pushes_front {l' = two} 32 8 (pushes_back {l' = one} 16 7 starts (omega arith) tt refl)
      (omega arith) (omega arith, tt) refl

Reaches-items_example :
    (forward two.nodes 32 3 ≡ ok (8 ∷ 7 ∷ []))
    × (backward two.nodes 16 3 ≡ ok (reversed (8 ∷ 7 ∷ [])))
    × ((l' : LinkedList ℕ) × (push_back two 48 9 ≡ ok l'))
    × ((l' : LinkedList ℕ) × (push_front two 48 9 ≡ ok l'))
    × ((cells ≡ []) ⊎ ((l' : LinkedList ℕ) × (pop_front two ≡ ok l')))
    × ((cells ≡ []) ⊎ ((l' : LinkedList ℕ) × (pop_back two ≡ ok l')))
Reaches-items_example =
    Reaches-items two cells 48 9 two-Reaches (omega arith) (omega arith, (omega arith, tt))

Reaches-changes_example :
    ((l' : LinkedList ℕ) × (insert two 16 48 9 ≡ ok (l', 48))
      × Reaches l' ((32, 8) ∷ (48, 9) ∷ (16, 7) ∷ []))
    × ((l' : LinkedList ℕ) × (erase two 16 ≡ ok (l', 0)) × Reaches l' ((32, 8) ∷ []))
    × ((l' : LinkedList ℕ) × (remove_from (λ n. n == 7) two 0 32 2 ≡ ok l')
        × Reaches l' ((32, 8) ∷ []))
Reaches-changes_example =
    Reaches-changes two ((32, 8) ∷ []) [] (16, 7) 48 9 (λ n. n == 7) two-Reaches (omega arith)
      (omega arith, (omega arith, tt)) (refl, tt) refl

abbrev three : LinkedList ℕ
three = record {
  nodes =
      write
        (write (write two.nodes 48 (some (record { item = 9; next = 16; prev = 32 }))) 16
          (some (record { item = 7; next = 0; prev = 48 })))
        32 (some (record { item = 8; next = 48; prev = 0 }));
  begin = 32;
  end = 16;
}

insert_runs : insert two 16 48 9 ≡ ok (three, 48)
unfolding insert insert_inner set_next set_prev write
insert_runs = refl

three-Holds : Holds three ((32, 8) ∷ (48, 9) ∷ (16, 7) ∷ [])
unfolding write
three-Holds = record {
  linked =
      linked_cons (omega arith) refl
        (linked_cons (omega arith) refl (linked_cons (omega arith) refl (linked_nil refl refl)));
  distinct = ((omega arith, (omega arith, tt)), ((omega arith, tt), (tt, tt)));
}

erase-Holds_example :
    (l' : LinkedList ℕ) × (erase three 48 ≡ ok (l', 16)) × Holds l' ((32, 8) ∷ (16, 7) ∷ [])
erase-Holds_example = erase-Holds three ((32, 8) ∷ []) (48, 9) ((16, 7) ∷ []) three-Holds
