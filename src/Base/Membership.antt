-- ===== src/Base/Membership.antt =====
-- Elements of lists that Python's comprehensions and `itertools` build.
use knowledge_diffusion.Base.Lists.{In, select}
use knowledge_diffusion.Base.Tests.{Bool-cases, leb}
use knowledge_diffusion.Base.Sets.{
  insert_by, sort_by, picks_from, picks, concat_map, permutations_3,
}
use Prim.Native.Nat.{ℕ}
use mathlib.Core.Path.{◌≡◌, refl, sym, ap, subst}
use mathlib.Core.Logic.{◌⊎◌, ◌↔◌, inl, inr}
use mathlib.Core.Bool.{Bool, true}
use mathlib.Core.List.{List, [], ◌∷◌, ◌++◌, map}

module _ {A : Type 0} where
  pub In-append_left : (y : A) (xs ys : List A) → In y xs → In y (xs ++ ys)
  In-append_left y [] ys h = absurd h
  In-append_left y (x ∷ xs) ys (inl e) = inl e
  In-append_left y (x ∷ xs) ys (inr h) = inr (In-append_left y xs ys h)

  pub In-append_right : (y : A) (xs ys : List A) → In y ys → In y (xs ++ ys)
  In-append_right y [] ys h = h
  In-append_right y (x ∷ xs) ys h = inr (In-append_right y xs ys h)

  pub In-append : (y : A) (xs ys : List A) → In y (xs ++ ys) → In y xs ⊎ In y ys
  In-append y [] ys h = inr h
  In-append y (x ∷ xs) ys (inl e) = inl (inl e)
  In-append y (x ∷ xs) ys (inr h) = elim (In-append y xs ys h) [
    | inl k ↦ inl (inr k)
    | inr k ↦ inr k
  ]

  pub In-select : (p : A → Bool) (y : A) (xs : List A) → In y (select p xs) → In y xs × (p y ≡ true)
  In-select p y [] h = absurd h
  In-select p y (x ∷ xs) h = elim (Bool-cases (p x)) [
    | inl e ↦ elim (rw e at h) [
      | inl same ↦ (inl same, subst (λ z. p z ≡ true) (sym same) e)
      | inr k ↦ let (a, b) = In-select p y xs k in (inr a, b)
    ]
    | inr e ↦ let (a, b) = In-select p y xs (rw e at h) in (inr a, b)
  ]

  pub select-In : (p : A → Bool) (y : A) (xs : List A) → In y xs → p y ≡ true → In y (select p xs)
  select-In p y [] h e = absurd h
  select-In p y (x ∷ xs) (inl same) e = rw (subst (λ z. p z ≡ true) same e) (inl same)
  select-In p y (x ∷ xs) (inr h) e = elim (Bool-cases (p x)) [
    | inl t ↦ rw t (inr (select-In p y xs h e))
    | inr f ↦ rw f (select-In p y xs h e)
  ]

  In-insert : (z y : A) (before zs : List A) → In y (before ++ zs) → In y (before ++ z ∷ zs)
  In-insert z y before zs h = elim (In-append y before zs h) [
    | inl k ↦ In-append_left y before (z ∷ zs) k
    | inr k ↦ In-append_right y before (z ∷ zs) (inr k)
  ]

  In-shift :
      (z y : A) (before zs : List A) → In y ((before ++ z ∷ []) ++ zs) → In y (before ++ z ∷ zs)
  In-shift z y before zs h = elim (In-append y (before ++ z ∷ []) zs h) [
    | inl k ↦ elim (In-append y before (z ∷ []) k) [
      | inl m ↦ In-append_left y before (z ∷ zs) m
      | inr (inl e) ↦ In-append_right y before (z ∷ zs) (inl e)
      | inr (inr m) ↦ absurd m
    ]
    | inr k ↦ In-append_right y before (z ∷ zs) (inr k)
  ]

  In-picks_from :
      (x : A) (rest before after : List A)
      → In (x, rest) (picks_from before after)
      → In x after × ((y : A) → In y rest → In y (before ++ after))
  In-picks_from x rest before [] h = absurd h
  In-picks_from x rest before (z ∷ zs) (inl e) = (
    inl (ap (λ p. p.0) e),
    λ y k. In-insert z y before zs (subst (λ l. In y l) (ap (λ p. p.1) e) k),
  )
  In-picks_from x rest before (z ∷ zs) (inr h) =
      let (a, b) = In-picks_from x rest (before ++ z ∷ []) zs h in
      (inr a, λ y k. In-shift z y before zs (b y k))

module _ {A B : Type 0} where
  pub In-concat_map :
      (f : A → List B) (y : B) (xs : List A)
      → In y (concat_map f xs)
      → (x : A) × In x xs × In y (f x)
  In-concat_map f y [] h = absurd h
  In-concat_map f y (x ∷ xs) h = elim (In-append y (f x) (concat_map f xs) h) [
    | inl k ↦ (x, inl refl, k)
    | inr k ↦ let (z, a, b) = In-concat_map f y xs k in (z, inr a, b)
  ]

  pub In-map : (f : A → B) (y : B) (xs : List A) → In y (map f xs) → (x : A) × In x xs × (y ≡ f x)
  In-map f y [] h = absurd h
  In-map f y (x ∷ xs) (inl e) = (x, inl refl, e)
  In-map f y (x ∷ xs) (inr h) = let (z, a, b) = In-map f y xs h in (z, inr a, b)

pub map-In : {A B : Type 0} (f : A → B) (x : A) (xs : List A) → In x xs → In (f x) (map f xs)
map-In f x [] h = h
map-In f x (y ∷ ys) (inl e) = inl (ap f e)
map-In f x (y ∷ ys) (inr h) = inr (map-In f x ys h)

-- The three of a permutation are elements of the list.
pub In-permutations_3 :
    {A : Type 0} (a b c : A) (xs : List A)
    → In (a, b, c) (permutations_3 xs)
    → In a xs × In b xs × In c xs
In-permutations_3 {A} a b c xs h =
    let ((first, rest), p, h1) =
      In-concat_map
        (λ ((first, rest) : A × List A).
          concat_map
            (λ ((second, others) : A × List A).
              map (λ ((third, left) : A × List A). (first, second, third)) (picks others))
            (picks rest))
        (a, b, c) (picks xs) h in
    let ((second, others), q, h2) =
      In-concat_map
        (λ ((second, others) : A × List A).
          map (λ ((third, left) : A × List A). (first, second, third)) (picks others))
        (a, b, c) (picks rest) h1 in
    let ((third, left), r, e) =
      In-map (λ ((third, left) : A × List A). (first, second, third)) (a, b, c) (picks others) h2 in
    let (p1, p2) = In-picks_from first rest [] xs p in
    let (q1, q2) = In-picks_from second others [] rest q in
    let (r1, r2) = In-picks_from third left [] others r in
    (
      subst (λ z. In z xs) (sym (ap (λ t. t.0) e)) p1,
      subst (λ z. In z xs) (sym (ap (λ t. t.1) e)) (p2 second q1),
      subst (λ z. In z xs) (sym (ap (λ t. t.2) e)) (p2 third (q2 third r1)),
    )

module _ {A : Type 0} (key : A → ℕ) where
  In-insert_by : (y x : A) (xs : List A) → In y (insert_by key x xs) → In y (x ∷ xs)
  In-insert_by y x [] h = h
  In-insert_by y x (z ∷ zs) h = elim (Bool-cases (leb (key x) (key z))) [
    | inl e ↦ rw e at h
    | inr e ↦ elim (rw e at h) [
      | inl same ↦ inr (inl same)
      | inr k ↦ elim (In-insert_by y x zs k) [ inl m ↦ inl m | inr m ↦ inr (inr m) ]
    ]
  ]

  insert_by-In : (y x : A) (xs : List A) → In y (x ∷ xs) → In y (insert_by key x xs)
  insert_by-In y x [] h = h
  insert_by-In y x (z ∷ zs) h = elim (Bool-cases (leb (key x) (key z))) [
    | inl e ↦ rw e h
    | inr e ↦ elim h [
      | inl same ↦ rw e (inr (insert_by-In y x zs (inl same)))
      | inr (inl same) ↦ rw e (inl same)
      | inr (inr k) ↦ rw e (inr (insert_by-In y x zs (inr k)))
    ]
  ]

  pub In-sort_by : (y : A) (xs : List A) → In y (sort_by key xs) → In y xs
  In-sort_by y [] h = h
  In-sort_by y (x ∷ xs) h = elim (In-insert_by y x (sort_by key xs) h) [
    | inl same ↦ inl same
    | inr k ↦ inr (In-sort_by y xs k)
  ]

  pub sort_by-In : (y : A) (xs : List A) → In y xs → In y (sort_by key xs)
  sort_by-In y [] h = h
  sort_by-In y (x ∷ xs) (inl same) = insert_by-In y x (sort_by key xs) (inl same)
  sort_by-In y (x ∷ xs) (inr k) = insert_by-In y x (sort_by key xs) (inr (sort_by-In y xs k))

-- A list that has grown by the elements of a description.
module _ {A : Type 0} where
  abbrev pub Gains : (A → Type 0) → List A → List A → Type 0
  Gains Q xs ys = (y : A) → In y ys ↔ (In y xs ⊎ Q y)

  pub Gains-none : (Q : A → Type 0) (xs ys : List A) → ((y : A) → ¬ (Q y)) → ys ≡ xs → Gains Q xs ys
  Gains-none Q xs ys never same y = (
    λ h. inl (subst (λ l. In y l) same h),
    λ h. elim h [ inl k ↦ subst (λ l. In y l) (sym same) k | inr k ↦ absurd (never y k) ],
  )

  pub Gains-one :
      (Q : A → Type 0) (xs ys : List A) (x : A)
      → Q x
      → ((y : A) → Q y → y ≡ x)
      → ys ≡ xs ++ x ∷ []
      → Gains Q xs ys
  Gains-one Q xs ys x q only same y = (
    λ h. elim (In-append y xs (x ∷ []) (subst (λ l. In y l) same h)) [
      | inl k ↦ inl k
      | inr (inl e) ↦ inr (subst Q (sym e) q)
      | inr (inr k) ↦ absurd k
    ],
    λ h.
        subst (λ l. In y l) (sym same)
          (elim h [
            | inl k ↦ In-append_left y xs (x ∷ []) k
            | inr k ↦ In-append_right y xs (x ∷ []) (inl (only y k))
          ]),
  )

  pub Gains-both :
      (Q R S : A → Type 0) (xs ys zs : List A)
      → ((y : A) → S y ↔ (Q y ⊎ R y))
      → Gains Q xs ys
      → Gains R ys zs
      → Gains S xs zs
  Gains-both Q R S xs ys zs split first second y = (
    λ h. elim ((second y).0 h) [
      | inl k ↦ elim ((first y).0 k) [ inl m ↦ inl m | inr m ↦ inr ((split y).1 (inl m)) ]
      | inr k ↦ inr ((split y).1 (inr k))
    ],
    λ h. elim h [
      | inl k ↦ (second y).1 (inl ((first y).1 (inl k)))
      | inr k ↦ elim ((split y).0 k) [
        | inl m ↦ (second y).1 (inl ((first y).1 (inr m)))
        | inr m ↦ (second y).1 (inr m)
      ]
    ],
  )
