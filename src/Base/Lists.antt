-- ===== src/Base/Lists.antt =====
-- Lists over the native numbers, and a table of rows with the statements that the SQL code uses.
use knowledge_diffusion.Base.Tests.{if◌then◌else◌, ◌==◌, is_some}
use Prim.Native.Nat.{ℕ, zero, suc, ◌+◌}
use mathlib.Core.Path.{◌≡◌, refl, subst}
use mathlib.Core.Bool.{Bool, true, false, ◌&&◌, ◌||◌, not}
use mathlib.Core.Logic.{◌↔◌, ◌⊎◌}
use mathlib.Core.Option.{Option, none, some}
use mathlib.Core.List.{List, [], ◌∷◌, ◌++◌}
use native.Mathlib.Omega.{arith}

abbrev pub All {ℓ κ} : {A : Type ℓ} → (A → Type κ) → List A → Type κ
All P [] = Unit
All P (x ∷ xs) = P x × All P xs

module _ {ℓ} {A : Type ℓ} where
  abbrev pub length : List A → ℕ
  length [] = 0
  length (x ∷ xs) = suc (length xs)

  abbrev pub any : (A → Bool) → List A → Bool
  any p [] = false
  any p (x ∷ xs) = p x || any p xs

  abbrev pub all : (A → Bool) → List A → Bool
  all p [] = true
  all p (x ∷ xs) = p x && all p xs

  -- The rows that satisfy a test, in order.
  abbrev pub select : (A → Bool) → List A → List A
  select p [] = []
  select p (x ∷ xs) = let rest = select p xs in if p x then x ∷ rest else rest

  -- The first row that satisfies a test.
  abbrev pub find? : (A → Bool) → List A → Option A
  find? p [] = none
  find? p (x ∷ xs) = let rest = find? p xs in if p x then some x else rest

  abbrev pub get_elem? : List A → ℕ → Option A
  get_elem? [] i = none
  get_elem? (x ∷ xs) zero = some x
  get_elem? (x ∷ xs) (suc i) = get_elem? xs i

  -- A write through a reference to the entry at an index.
  abbrev pub update_at : ℕ → (A → A) → List A → List A
  update_at i f [] = []
  update_at zero f (x ∷ xs) = f x ∷ xs
  update_at (suc i) f (x ∷ xs) = x ∷ update_at i f xs

  -- `UPDATE … SET … WHERE …`
  abbrev pub update_where : (A → Bool) → (A → A) → List A → List A
  update_where p f [] = []
  update_where p f (x ∷ xs) = (if p x then f x else x) ∷ update_where p f xs

  pub length-append : (xs ys : List A) → length (xs ++ ys) ≡ length xs + length ys
  length-append [] ys = omega arith
  length-append (x ∷ xs) ys = omega (arith, length-append xs ys)

  pub length-update_where :
      (p : A → Bool) (f : A → A) (xs : List A) → length (update_where p f xs) ≡ length xs
  length-update_where p f [] = refl
  length-update_where p f (x ∷ xs) = omega (arith, length-update_where p f xs)

  -- An update keeps the answer of a query that it cannot change.
  pub find?-update_where-some :
      (q p : A → Bool) (f : A → A) (xs : List A) (x : A)
      → ((y : A) → q (f y) ≡ q y)
      → find? q xs ≡ some x
      → find? q (update_where p f xs) ≡ some (if p x then f x else x)
  find?-update_where-some q p f [] x keep h = cc
  find?-update_where-some q p f (y ∷ ys) x keep h =
      ground (arith, keep y, find?-update_where-some q p f ys x keep)

  pub find?-update_where-none :
      (q p : A → Bool) (f : A → A) (xs : List A)
      → ((y : A) → q (f y) ≡ q y)
      → find? q xs ≡ none
      → find? q (update_where p f xs) ≡ none
  find?-update_where-none q p f [] keep h = refl
  find?-update_where-none q p f (y ∷ ys) keep h =
      ground (arith, keep y, find?-update_where-none q p f ys keep)

  -- An update of rows that a query does not ask for.
  pub find?-update_where_apart :
      (q p : A → Bool) (f : A → A) (xs : List A)
      → ((y : A) → p y ≡ true → (q y ≡ false) × (q (f y) ≡ false))
      → find? q (update_where p f xs) ≡ find? q xs
  find?-update_where_apart q p f [] apart = refl
  find?-update_where_apart q p f (y ∷ ys) apart =
      ground (arith, apart y, find?-update_where_apart q p f ys apart)

  -- A row that a query does not ask for, appended.
  pub find?-append_apart :
      (q : A → Bool) (x : A) (xs : List A) → q x ≡ false → find? q (xs ++ x ∷ []) ≡ find? q xs
  find?-append_apart q x [] apart = ground arith
  find?-append_apart q x (y ∷ ys) apart = ground (arith, find?-append_apart q x ys)

  pub find?-holds : (q : A → Bool) (xs : List A) (x : A) → find? q xs ≡ some x → q x ≡ true
  find?-holds q [] x h = cc
  find?-holds q (y ∷ ys) x h = ground (arith, find?-holds q ys x)

  pub find?-append_some :
      (q : A → Bool) (xs ys : List A) (x : A) → find? q xs ≡ some x → find? q (xs ++ ys) ≡ some x
  find?-append_some q [] ys x h = cc
  find?-append_some q (y ∷ xs) ys x h = ground (arith, find?-append_some q xs ys x)

  pub find?-append_none :
      (q : A → Bool) (xs ys : List A) → find? q xs ≡ none → find? q (xs ++ ys) ≡ find? q ys
  find?-append_none q [] ys h = refl
  find?-append_none q (y ∷ xs) ys h = ground (arith, find?-append_none q xs ys)

  pub any-find? : (q : A → Bool) (xs : List A) → any q xs ≡ is_some (find? q xs)
  any-find? q [] = refl
  any-find? q (y ∷ ys) = ground (arith, any-find? q ys)

-- `x in xs`
abbrev pub member : ℕ → List ℕ → Bool
member x [] = false
member x (y ∷ ys) = y == x || member x ys

module _ {ℓ κ} {A : Type ℓ} (P : A → Type κ) where
  pub All-append : (xs ys : List A) → All P xs → All P ys → All P (xs ++ ys)
  All-append [] ys h k = k
  All-append (x ∷ xs) ys h k = (h.0, All-append xs ys h.1 k)

  pub All-get_elem? : (xs : List A) (i : ℕ) (x : A) → All P xs → get_elem? xs i ≡ some x → P x
  All-get_elem? [] i x h e = cc
  All-get_elem? (y ∷ ys) zero x h e = let same : y ≡ x = cc in subst P same h.0
  All-get_elem? (y ∷ ys) (suc i) x h e = All-get_elem? ys i x h.1 e

  pub All-update_at :
      (i : ℕ) (f : A → A) (xs : List A) (x : A)
      → get_elem? xs i ≡ some x
      → All P xs
      → P (f x)
      → All P (update_at i f xs)
  All-update_at i f [] x e h new = tt
  All-update_at zero f (y ∷ ys) x e h new =
      let same : x ≡ y = cc in (subst (λ z. P (f z)) same new, h.1)
  All-update_at (suc i) f (y ∷ ys) x e h new = (h.0, All-update_at i f ys x e h.1 new)

-- An element of a list.
abbrev pub In : {A : Type 0} → A → List A → Type 0
In x [] = ⊥
In x (y ∷ ys) = (x ≡ y) ⊎ In x ys

-- What a failed search says of every element.
pub any-All {ℓ} :
    {A : Type ℓ} (p : A → Bool) (xs : List A)
    → (any (λ x. not (p x)) xs ≡ false) ↔ All (λ x. p x ≡ true) xs
any-All p [] = (λ h. tt, λ h. refl)
any-All p (x ∷ xs) =
    (λ h. ground (arith, (any-All p xs).0), λ h. ground (arith, (any-All p xs).1 h.1))
