-- ===== src/Artifacts/Backup/Sorting.antt =====
-- What `sorted` keeps of a list of rows: the table of artifacts is exported in the order of its keys.
use knowledge_diffusion.Base.{
  All, Bool-cases, List, [], ap, arith, inl, inr, insert_by, insert_sorted, leb, length, map, refl,
  sort_by, sorted, suc, ℕ, ◌+◌, ◌∙◌, ◌∷◌, ◌≡◌,
}
use knowledge_diffusion.Artifacts.Backup.{total_by}

module _ {A : Type 0} (key : A → ℕ) where
  total-insert_by :
      (f : A → ℕ) (x : A) (xs : List A) → total_by f (insert_by key x xs) ≡ f x + total_by f xs
  total-insert_by f x [] = refl
  total-insert_by f x (y ∷ xs) = ground (arith, total-insert_by f x xs)

  pub total-sort_by : (f : A → ℕ) (xs : List A) → total_by f (sort_by key xs) ≡ total_by f xs
  total-sort_by f [] = refl
  total-sort_by f (x ∷ xs) = omega (arith, total-insert_by f x (sort_by key xs), total-sort_by f xs)

  length-insert_by : (x : A) (xs : List A) → length (insert_by key x xs) ≡ suc (length xs)
  length-insert_by x [] = refl
  length-insert_by x (y ∷ xs) = ground (arith, length-insert_by x xs)

  pub length-sort_by : (xs : List A) → length (sort_by key xs) ≡ length xs
  length-sort_by [] = refl
  length-sort_by (x ∷ xs) = omega (arith, length-insert_by x (sort_by key xs), length-sort_by xs)

  map-insert_by :
      (x : A) (xs : List A) → map key (insert_by key x xs) ≡ insert_sorted (key x) (map key xs)
  map-insert_by x [] = refl
  map-insert_by x (y ∷ xs) = elim (Bool-cases (leb (key x) (key y))) [
    | inl e ↦ rw e refl
    | inr e ↦ rw e (ap (λ l. key y ∷ l) (map-insert_by x xs))
  ]

  pub map-sort_by : (xs : List A) → map key (sort_by key xs) ≡ sorted (map key xs)
  map-sort_by [] = refl
  map-sort_by (x ∷ xs) =
      map-insert_by x (sort_by key xs) ∙ ap (insert_sorted (key x)) (map-sort_by xs)

  All-insert_by :
      (P : A → Type 0) (x : A) (xs : List A) → P x → All P xs → All P (insert_by key x xs)
  All-insert_by P x [] p h = (p, tt)
  All-insert_by P x (y ∷ xs) p h = elim (Bool-cases (leb (key x) (key y))) [
    | inl e ↦ rw e (p, h)
    | inr e ↦ rw e (h.0, All-insert_by P x xs p h.1)
  ]

  pub All-sort_by : (P : A → Type 0) (xs : List A) → All P xs → All P (sort_by key xs)
  All-sort_by P [] h = tt
  All-sort_by P (x ∷ xs) h = All-insert_by P x (sort_by key xs) h.0 (All-sort_by P xs h.1)
