-- ===== src/Artifacts/Backup/Order.antt =====
-- What a list of rows keeps in another order: the file system lists a directory in any.
use knowledge_diffusion.Base.{
  All, Bool-cases, Key, List, Unique, [], ap, arith, inl, inr, insert_by, leb, length, map, member,
  refl, sort_by, suc, ℕ, ◌∙◌, ◌∷◌, ◌≡◌,
}
use knowledge_diffusion.Artifacts.Backup.{total_by}

-- The same elements, each as often, in another order.
pub data Reordered {A : Type 0} : List A → List A → Type 0 where
  nil : Reordered [] []
  cons : (x : A) {xs ys : List A} → Reordered xs ys → Reordered (x ∷ xs) (x ∷ ys)
  swap : (x y : A) (xs : List A) → Reordered (x ∷ y ∷ xs) (y ∷ x ∷ xs)
  trans : {xs ys zs : List A} → Reordered xs ys → Reordered ys zs → Reordered xs zs

pub Reordered-refl : {A : Type 0} (xs : List A) → Reordered xs xs
Reordered-refl [] = nil
Reordered-refl (x ∷ xs) = cons x (Reordered-refl xs)

-- A list in the order of the images is the images of a list.
pub Reordered-map :
    {A B : Type 0} (f : A → B) {xs zs : List B}
    → Reordered xs zs
    → (rows : List A) → zs ≡ map f rows
    → (back : List A) × (xs ≡ map f back) × Reordered back rows
Reordered-map f nil [] e = ([], refl, nil)
Reordered-map f nil (r ∷ rows) e = cc
Reordered-map f (cons x d) [] e = cc
Reordered-map f (cons x d) (r ∷ rows) e =
    let (back, same, p) = Reordered-map f d rows cc in (r ∷ back, cc, cons r p)
Reordered-map f (swap x y l) [] e = cc
Reordered-map f (swap x y l) (r ∷ []) e = cc
Reordered-map f (swap x y l) (r ∷ s ∷ rows) e = (s ∷ r ∷ rows, cc, swap s r rows)
Reordered-map f (trans d g) rows e =
    let (mid, same, p) = Reordered-map f g rows e in
    let (back, same', q) = Reordered-map f d mid same in (back, same', trans q p)

pub All-Reordered :
    {A : Type 0} (P : A → Type 0) {xs ys : List A} → Reordered xs ys → All P ys → All P xs
All-Reordered P nil h = tt
All-Reordered P (cons x d) h = (h.0, All-Reordered P d h.1)
All-Reordered P (swap x y l) h = (h.1.0, (h.0, h.1.1))
All-Reordered P (trans d g) h = All-Reordered P d (All-Reordered P g h)

pub length-Reordered : {A : Type 0} {xs ys : List A} → Reordered xs ys → length xs ≡ length ys
length-Reordered nil = refl
length-Reordered (cons x d) = ap suc (length-Reordered d)
length-Reordered (swap x y l) = refl
length-Reordered (trans d g) = length-Reordered d ∙ length-Reordered g

pub total-Reordered :
    {A : Type 0} (f : A → ℕ) {xs ys : List A} → Reordered xs ys → total_by f xs ≡ total_by f ys
total-Reordered f nil = refl
total-Reordered f (cons x d) = omega (arith, total-Reordered f d)
total-Reordered f (swap x y l) = omega arith
total-Reordered f (trans d g) = total-Reordered f d ∙ total-Reordered f g

member-Reordered :
    {A : Type 0} (key : A → Key) (k : Key) {xs ys : List A}
    → Reordered xs ys
    → member k (map key xs) ≡ member k (map key ys)
member-Reordered key k nil = refl
member-Reordered key k (cons x d) = ground (arith, member-Reordered key k d)
member-Reordered key k (swap x y l) = ground arith
member-Reordered key k (trans d g) = member-Reordered key k d ∙ member-Reordered key k g

pub Unique-Reordered :
    {A : Type 0} (key : A → Key) {xs ys : List A}
    → Reordered xs ys
    → Unique (map key ys)
    → Unique (map key xs)
Unique-Reordered key nil u = tt
Unique-Reordered key (cons x d) (a, u) =
    (member-Reordered key (key x) d ∙ a, Unique-Reordered key d u)
Unique-Reordered key (swap x y l) (a, (b, u)) = (ground (arith, a, b), (ground (arith, a, b), u))
Unique-Reordered key (trans d g) u = Unique-Reordered key d (Unique-Reordered key g u)

module _ {A : Type 0} (key : A → ℕ) where
  Reordered-insert_by : (x : A) (xs : List A) → Reordered (insert_by key x xs) (x ∷ xs)
  Reordered-insert_by x [] = Reordered-refl (x ∷ [])
  Reordered-insert_by x (y ∷ xs) = elim (Bool-cases (leb (key x) (key y))) [
    | inl e ↦ rw e (Reordered-refl (x ∷ y ∷ xs))
    | inr e ↦ rw e (trans (cons _ (Reordered-insert_by x xs)) (swap y x xs))
  ]

  pub Reordered-sort_by : (xs : List A) → Reordered (sort_by key xs) xs
  Reordered-sort_by [] = nil
  Reordered-sort_by (x ∷ xs) =
      trans (Reordered-insert_by x (sort_by key xs)) (cons _ (Reordered-sort_by xs))
