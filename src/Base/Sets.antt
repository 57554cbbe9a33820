-- ===== src/Base/Sets.antt =====
-- Sets and dictionaries of Python as lists: a set of keys is a list without repetitions, and a
-- dictionary a list of rows with distinct keys, in the order of insertion.
use knowledge_diffusion.Base.Tests.{if◌then◌else◌, ◌==◌, leb}
use knowledge_diffusion.Base.Lists.{member, all, find?, select}
use Prim.Native.Nat.{ℕ}
use mathlib.Core.Path.{◌≡◌, refl}
use mathlib.Core.Bool.{Bool, not, ◌&&◌, ◌||◌}
use mathlib.Core.Option.{Option}
use mathlib.Core.List.{List, [], ◌∷◌, ◌++◌, map}
use native.Mathlib.Omega.{arith}

abbrev pub insert_sorted : ℕ → List ℕ → List ℕ
insert_sorted x [] = x ∷ []
insert_sorted x (y ∷ ys) = let rest = insert_sorted x ys in if leb x y then x ∷ y ∷ ys else y ∷ rest

-- `sorted(xs)` of keys.
abbrev pub sorted : List ℕ → List ℕ
sorted [] = []
sorted (x ∷ xs) = insert_sorted x (sorted xs)

-- `xs | {x}`
abbrev pub add_key : ℕ → List ℕ → List ℕ
add_key x xs = if member x xs then xs else xs ++ x ∷ []

-- `set(xs)`
abbrev pub distinct : List ℕ → List ℕ
distinct [] = []
distinct (x ∷ xs) = let rest = distinct xs in if member x rest then rest else x ∷ rest

-- The keys of a dictionary, in the order of their first insertion.
abbrev pub first_seen : List ℕ → List ℕ
first_seen [] = []
first_seen (x ∷ xs) = x ∷ select (λ y. not (y == x)) (first_seen xs)

-- `xs & set(ys)`
abbrev pub among : List ℕ → List ℕ → List ℕ
among xs ys = select (λ x. member x ys) xs

-- `set(xs) == set(ys)`
abbrev pub same_set : List ℕ → List ℕ → Bool
same_set xs ys = all (λ x. member x ys) xs && all (λ y. member y xs) ys

module _ {ℓ} {A : Type ℓ} (key : A → ℕ) where
  -- `d[key(x)] = x`
  abbrev pub put_row : A → List A → List A
  put_row x [] = x ∷ []
  put_row x (y ∷ ys) = let rest = put_row x ys in if key y == key x then x ∷ ys else y ∷ rest

  abbrev pub put_rows : List A → List A → List A
  put_rows [] table = table
  put_rows (x ∷ xs) table = put_rows xs (put_row x table)

  -- `{key(x): x for x in xs}`
  abbrev pub dict : List A → List A
  dict xs = put_rows xs []

  -- `d[k]`
  abbrev pub row_at : List A → ℕ → Option A
  row_at table k = find? (λ x. key x == k) table

pub member-insert_sorted :
    (k x : ℕ) (xs : List ℕ) → member k (insert_sorted x xs) ≡ (x == k || member k xs)
member-insert_sorted k x [] = refl
member-insert_sorted k x (y ∷ ys) = ground (arith, member-insert_sorted k x ys)

-- Sorting keeps the members.
pub member-sorted : (k : ℕ) (xs : List ℕ) → member k (sorted xs) ≡ member k xs
member-sorted k [] = refl
member-sorted k (x ∷ xs) = ground (arith, member-insert_sorted k x (sorted xs), member-sorted k xs)

pub member-append : (k : ℕ) (xs ys : List ℕ) → member k (xs ++ ys) ≡ (member k xs || member k ys)
member-append k [] ys = refl
member-append k (x ∷ xs) ys = ground (arith, member-append k xs ys)

pub member-distinct : (k : ℕ) (xs : List ℕ) → member k (distinct xs) ≡ member k xs
member-distinct k [] = refl
member-distinct k (x ∷ xs) = ground (arith, member-distinct k xs)

pub member-select :
    (p : ℕ → Bool) (k : ℕ) (xs : List ℕ) → member k (select p xs) ≡ (member k xs && p k)
member-select p k [] = refl
member-select p k (x ∷ xs) = ground (arith, member-select p k xs)

module _ {ℓ} {A : Type ℓ} (key : A → ℕ) where
  abbrev pub insert_by : A → List A → List A
  insert_by x [] = x ∷ []
  insert_by x (y ∷ ys) =
      let rest = insert_by x ys in if leb (key x) (key y) then x ∷ y ∷ ys else y ∷ rest

  -- `sorted(xs, key=key)`
  abbrev pub sort_by : List A → List A
  sort_by [] = []
  sort_by (x ∷ xs) = insert_by x (sort_by xs)

-- The order of `itertools`: each element with the others, in their order.
abbrev pub picks_from {ℓ} : {A : Type ℓ} → List A → List A → List (A × List A)
picks_from before [] = []
picks_from before (x ∷ after) = (x, before ++ after) ∷ picks_from (before ++ x ∷ []) after

abbrev pub picks {ℓ} : {A : Type ℓ} → List A → List (A × List A)
picks xs = picks_from [] xs

abbrev pub concat_map {ℓ κ} : {A : Type ℓ} {B : Type κ} → (A → List B) → List A → List B
concat_map f [] = []
concat_map f (x ∷ xs) = f x ++ concat_map f xs

-- `permutations(xs, 3)`
abbrev pub permutations_3 {ℓ} : {A : Type ℓ} → List A → List (A × A × A)
permutations_3 xs =
    concat_map
      (λ (first, rest).
        concat_map (λ (second, others). map (λ (third, _). (first, second, third)) (picks others))
          (picks rest))
      (picks xs)
