-- ===== src/Base/Distinct.antt =====
-- Lists of keys without repetitions, as Python's sets and the keys of its dictionaries give them.
use knowledge_diffusion.Base.Tests.{◌==◌, leb, Bool-cases, ==→eq}
use knowledge_diffusion.Base.Lists.{length, member, select, In}
use knowledge_diffusion.Base.Sets.{
  insert_sorted, sorted, first_seen, member-append, member-insert_sorted, member-sorted,
  member-select,
}
use Prim.Native.Nat.{ℕ, suc}
use mathlib.Core.Path.{◌≡◌, refl, ap, ◌∙◌}
use mathlib.Core.Logic.{◌↔◌, inl, inr}
use mathlib.Core.Bool.{Bool, true, false, not}
use mathlib.Core.List.{List, [], ◌∷◌, ◌++◌, map}
use native.Mathlib.Omega.{arith}

abbrev pub Unique : List ℕ → Type 0
Unique [] = Unit
Unique (x ∷ xs) = (member x xs ≡ false) × Unique xs

pub Unique-select : (p : ℕ → Bool) (xs : List ℕ) → Unique xs → Unique (select p xs)
Unique-select p [] h = tt
Unique-select p (x ∷ xs) (a, h) = elim (Bool-cases (p x)) [
  | inl e ↦ rw e (ground (arith, member-select p x xs, a), Unique-select p xs h)
  | inr e ↦ rw e (Unique-select p xs h)
]

Unique-insert_sorted :
    (x : ℕ) (xs : List ℕ) → member x xs ≡ false → Unique xs → Unique (insert_sorted x xs)
Unique-insert_sorted x [] h u = (refl, tt)
Unique-insert_sorted x (y ∷ ys) h (a, u) = elim (Bool-cases (leb x y)) [
  | inl e ↦ rw e (h, (a, u))
  | inr e ↦ rw e (
    ground (arith, member-insert_sorted y x ys, h, a),
    Unique-insert_sorted x ys (ground (arith, h)) u,
  )
]

pub Unique-sorted : (xs : List ℕ) → Unique xs → Unique (sorted xs)
Unique-sorted [] h = tt
Unique-sorted (x ∷ xs) (a, h) =
    Unique-insert_sorted x (sorted xs) (member-sorted x xs ∙ a) (Unique-sorted xs h)

pub member-first_seen : (k : ℕ) (xs : List ℕ) → member k (first_seen xs) ≡ member k xs
member-first_seen k [] = refl
member-first_seen k (x ∷ xs) =
    ground (arith, member-select (λ y. not (y == x)) k (first_seen xs), member-first_seen k xs)

pub Unique-first_seen : (xs : List ℕ) → Unique (first_seen xs)
Unique-first_seen [] = tt
Unique-first_seen (x ∷ xs) = (
  ground (arith, member-select (λ y. not (y == x)) x (first_seen xs)),
  Unique-select (λ y. not (y == x)) (first_seen xs) (Unique-first_seen xs),
)

length-insert_sorted : (x : ℕ) (xs : List ℕ) → length (insert_sorted x xs) ≡ suc (length xs)
length-insert_sorted x [] = refl
length-insert_sorted x (y ∷ ys) = ground (arith, length-insert_sorted x ys)

pub length-sorted : (xs : List ℕ) → length (sorted xs) ≡ length xs
length-sorted [] = refl
length-sorted (x ∷ xs) = length-insert_sorted x (sorted xs) ∙ ap suc (length-sorted xs)

module _ {A : Type 0} (f : A → ℕ) where
  -- The keys of a list's elements.
  pub member-map :
      (k : ℕ) (xs : List A) → (member k (map f xs) ≡ true) ↔ ((x : A) × In x xs × (f x ≡ k))
  member-map k [] = (λ h. cc, λ (x, i, e). absurd i)
  member-map k (x ∷ xs) = (
    λ h. elim (Bool-cases (f x == k)) [
      | inl e ↦ (x, inl refl, ==→eq (f x) k e)
      | inr e ↦ let (y, i, s) = (member-map k xs).0 (ground (arith, h, e)) in (y, inr i, s)
    ],
    λ (y, i, e). elim i [
      | inl same ↦ ground (arith, ap f same, e)
      | inr j ↦ ground (arith, (member-map k xs).1 (y, j, e))
    ],
  )

-- A new element at the end.
pub Unique-append_one :
    (x : ℕ) (xs : List ℕ) → member x xs ≡ false → Unique xs → Unique (xs ++ x ∷ [])
Unique-append_one x [] h u = (refl, tt)
Unique-append_one x (y ∷ xs) h (a, u) = (
  ground (arith, member-append y xs (x ∷ []), a, h),
  Unique-append_one x xs (ground (arith, h)) u,
)
