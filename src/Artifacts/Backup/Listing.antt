-- ===== src/Artifacts/Backup/Listing.antt =====
-- The files and captures of a list of rows, as `export` of src/kdiff/core/durable.py writes them.
use knowledge_diffusion.Base.{
  ==→eq, Bool, Bool-cases, Key, List, Option, Unique, [], any, ap, arith, false, find?, inl, inr,
  map, member, none, put_row, refl, row_at, some, true, ℕ, ◌++◌, ◌==◌, ◌∷◌, ◌≡◌, ◌≤◌,
}
use knowledge_diffusion.Artifacts
use knowledge_diffusion.Artifacts.{File, cap, at_path}
use knowledge_diffusion.Artifacts.Database.{Row, Capture}
use knowledge_diffusion.Artifacts.Backup.{Directory, capture_of}

pub append-cons :
    {A : Type 0} (xs : List A) (x : A) (ys : List A) → (xs ++ x ∷ []) ++ ys ≡ xs ++ x ∷ ys
append-cons [] x ys = refl
append-cons (z ∷ xs) x ys = ap (λ l. z ∷ l) (append-cons xs x ys)

pub append-nil : {A : Type 0} (xs : List A) → xs ++ [] ≡ xs
append-nil [] = refl
append-nil (x ∷ xs) = ap (λ l. x ∷ l) (append-nil xs)

pub map-append_one :
    {A B : Type 0} (f : A → B) (xs : List A) (x : A) → map f (xs ++ x ∷ []) ≡ map f xs ++ f x ∷ []
map-append_one f [] x = refl
map-append_one f (y ∷ xs) x = ap (λ l. f y ∷ l) (map-append_one f xs x)

module _ {Data Json : Type 0} (size : Data → ℕ) (hash : Data → Key) (parse : Data → Option Json)
    (link_size : Key → ℕ) where
  abbrev pub Rows : Type 0
  Rows = List (Row Data Json)

  -- A row as `put_bytes` inserts it.
  pub record Fits (row : Row Data Json) : Type 0 where
    pub named : hash row.bytes ≡ row.sha
    pub bounded : size row.bytes ≤ cap
    pub parsed : row.payload ≡ parse row.bytes

  abbrev pub entry_of : Row Data Json → Key × File Data
  entry_of row = (row.sha, Artifacts.regular row.bytes)

  abbrev pub captured : Row Data Json → Key × Capture
  captured row = (row.sha, capture_of size hash parse link_size row)

  abbrev pub directory_of : Rows → Directory size hash parse link_size
  directory_of rows = record { files = map entry_of rows; captures = map captured rows }

  abbrev pub has_row : Key → Rows → Bool
  has_row k rows = any (λ r. r.sha == k) rows

  pub find?-absent :
      (k : Key) (rows : Rows)
      → has_row k rows ≡ false
      → find? (at_path size hash k) (map entry_of rows) ≡ none
  find?-absent k [] h = refl
  find?-absent k (r ∷ rows) h = ground (arith, find?-absent k rows, h)

  pub put_row-absent :
      (x : Row Data Json) (rows : Rows)
      → has_row x.sha rows ≡ false
      → put_row (λ c. c.0) (captured x) (map captured rows) ≡ map captured rows ++ captured x ∷ []
  put_row-absent x [] h = refl
  put_row-absent x (r ∷ rows) h = ground (arith, put_row-absent x rows, h)

  pub find?-entry :
      (r : Row Data Json) (before after : Rows)
      → has_row r.sha before ≡ false
      → find? (at_path size hash r.sha) (map entry_of (before ++ r ∷ after)) ≡ some (entry_of r)
  find?-entry r [] after h = ground arith
  find?-entry r (x ∷ before) after h = ground (arith, find?-entry r before after, h)

  pub row_at-captured :
      (r : Row Data Json) (before after : Rows)
      → has_row r.sha before ≡ false
      → row_at (λ c. c.0) (map captured (before ++ r ∷ after)) r.sha ≡ some (captured r)
  row_at-captured r [] after h = ground arith
  row_at-captured r (x ∷ before) after h = ground (arith, row_at-captured r before after, h)

  member-sha :
      (r : Row Data Json) (before after : Rows)
      → member r.sha (map (λ r. r.sha) (before ++ r ∷ after)) ≡ true
  member-sha r [] after = ground arith
  member-sha r (x ∷ before) after = ground (arith, member-sha r before after)

  -- In rows with distinct keys, a row's key is not among those before it.
  pub Unique-fresh :
      (r : Row Data Json) (before after : Rows)
      → Unique (map (λ r. r.sha) (before ++ r ∷ after))
      → has_row r.sha before ≡ false
  Unique-fresh r [] after u = refl
  Unique-fresh r (x ∷ before) after u = elim (Bool-cases (x.sha == r.sha)) [
    | inl e ↦
        let same =
          ap (λ k. member k (map (λ r. r.sha) (before ++ r ∷ after))) (==→eq x.sha r.sha e) in
        ground (arith, same, member-sha r before after, u.0)
    | inr e ↦ ground (arith, e, Unique-fresh r before after u.1)
  ]
