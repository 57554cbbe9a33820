-- ===== src/Ledger/Table.antt =====
-- Facts about the task table of src/kdiff/core/durable.py: its primary key, and the row that the
-- query of `claim` picks.
use knowledge_diffusion.Base.{
  Bool, Key, List, Option-cases, [], ap, arith, false, find?, find?-append_none,
  find?-update_where-none, inl, inr, none, refl, select, some, true, update_where, ◌++◌, ◌==◌, ◌∷◌,
  ◌≡◌,
}
use knowledge_diffusion.Ledger.{Task, has_id, earlier, earliest}

-- `task_id TEXT PRIMARY KEY`
abbrev pub UniqueIds : List Task → Type 0
UniqueIds [] = Unit
UniqueIds (x ∷ xs) = (find? (has_id x.task_id) xs ≡ none) × UniqueIds xs

pub update_where-UniqueIds :
    (p : Task → Bool) (f : Task → Task) (xs : List Task)
    → ((x : Task) → (f x).task_id ≡ x.task_id)
    → UniqueIds xs
    → UniqueIds (update_where p f xs)
update_where-UniqueIds p f [] keep h = tt
update_where-UniqueIds p f (x ∷ xs) keep h = (
  ground (
    arith,
    keep x,
    find?-update_where-none (has_id x.task_id) p f xs (λ y. ap (λ k. k == x.task_id) (keep y)) h.0,
  ),
  update_where-UniqueIds p f xs keep h.1,
)

pub append-UniqueIds :
    (x : Task) (xs : List Task)
    → find? (has_id x.task_id) xs ≡ none
    → UniqueIds xs
    → UniqueIds (xs ++ x ∷ [])
append-UniqueIds x [] new h = (refl, tt)
append-UniqueIds x (y ∷ ys) new h =
    ground (arith, append-UniqueIds x ys, find?-append_none (has_id y.task_id) ys (x ∷ []))

-- The row that is picked satisfies the test, and is the one row of its identifier.
pub earliest-select :
    (p : Task → Bool) (xs : List Task) (row : Task)
    → UniqueIds xs
    → earliest (select p xs) ≡ some row
    → (p row ≡ true) × (find? (has_id row.task_id) xs ≡ some row)
earliest-select p [] row h e = cc
earliest-select p (x ∷ xs) row h e = elim (Option-cases (earliest (select p xs))) [
  | inl nothing ↦ ground arith
  | inr (y, found) ↦ ground (arith, earliest-select p xs y h.1 found)
]

pub earliest-none :
    (p : Task → Bool) (xs : List Task) (id : Key) (other : Task)
    → earliest (select p xs) ≡ none
    → find? (has_id id) xs ≡ some other
    → p other ≡ false
earliest-none p [] id other e found = cc
earliest-none p (x ∷ xs) id other e found = ground (arith, earliest-none p xs id other)

-- No row that satisfies the test comes before the one that is picked.
pub earliest-first :
    (p : Task → Bool) (xs : List Task) (row : Task) (id : Key) (other : Task)
    → earliest (select p xs) ≡ some row
    → find? (has_id id) xs ≡ some other
    → p other ≡ true
    → earlier other row ≡ false
earliest-first p [] row id other e found holds = cc
earliest-first p (x ∷ xs) row id other e found holds =
    elim (Option-cases (earliest (select p xs))) [
      | inl nothing ↦ ground (arith, earliest-none p xs id other nothing)
      | inr (y, picked) ↦ ground (arith, earliest-first p xs y id other picked)
    ]
