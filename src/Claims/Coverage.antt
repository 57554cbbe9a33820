-- ===== src/Claims/Coverage.antt =====
-- `greedy_cover` of src/kdiff/analysis/claims.py covers what can be covered.
use knowledge_diffusion.Base.{
  >>=-eq-ok, All, Bool, Bool-cases, In, Key, List, Option, Result-cases, [], any, ap, arith, false,
  inl, inr, is_ok, length, ltb, member, none, ok, ok-injective, or_raise, refl, some, suc, true,
  zero, ℕ, ◌&&◌, ◌+◌, ◌==◌, ◌∙◌, ◌∷◌, ◌≡◌, ◌≤◌, ◌⊎◌,
}
use mathlib.Core.Path.{subst}
use knowledge_diffusion.Claims.Cover
use knowledge_diffusion.Claims.Cover.{
  Offer, CoverError, gain, still_open, best, cover, greedy_cover,
}

gain-still_open :
    (remaining : List Key) (o : Offer)
    → length (gain remaining o) + length (still_open remaining o) ≡ length remaining
gain-still_open [] o = omega arith
gain-still_open (x ∷ xs) o = ground (arith, gain-still_open xs o)

first_of-cases :
    (remaining : List Key) (x : Key × Offer) (rest : Option (Key × Offer))
    → (Cover.first_of remaining x rest ≡ x) ⊎ (rest ≡ some (Cover.first_of remaining x rest))
first_of-cases remaining x none = inl refl
first_of-cases remaining x (some y) = ground arith

-- The choice is an offer with a gain.
best-some :
    (offers : List (Key × Offer)) (remaining : List Key) (c : Key × Offer) (p : Key × Offer → Bool)
    → best offers remaining ≡ ok (some c)
    → p c ≡ true
    → (1 ≤ length (gain remaining c.1)) × (any p offers ≡ true)
unfolding best
best-some [] remaining c p h q = cc
best-some (x ∷ offers) remaining c p h q = elim (Result-cases (best offers remaining)) [
  | inl (rest, e) ↦ elim (Bool-cases (length (gain remaining x.1) == 0)) [
    | inl useless ↦
        let next : best offers remaining ≡ ok (some c) = ground (arith, e, useless) in
        let (a, b) = best-some offers remaining c p next q in (a, ground (arith, b))
    | inr useful ↦ elim (first_of-cases remaining x rest) [
      | inl same ↦
          let here : c ≡ x = ground (arith, e, useful, same) in
          (ground (arith, here, useful), ground (arith, ap p here, q))
      | inr same ↦
          let next : best offers remaining ≡ ok (some c) = ground (arith, e, useful, same) in
          let (a, b) = best-some offers remaining c p next q in (a, ground (arith, b))
    ]
  ]
  | inr (r, e) ↦ ground (arith, e)
]

abbrev Paid : List (Key × Offer) → Type 0
Paid offers = All (λ (e : Key × Offer). (e.1.cost == 0) ≡ false) offers

best-is_ok :
    (offers : List (Key × Offer)) (remaining : List Key)
    → Paid offers
    → is_ok (best offers remaining) ≡ true
unfolding best
best-is_ok [] remaining h = refl
best-is_ok (x ∷ offers) remaining h = ground (arith, h.0, best-is_ok offers remaining h.1)

-- Some offer covers the obligation.
abbrev pub coverable : List (Key × Offer) → Key → Bool
coverable offers k = any (λ e. member k e.1.covers) offers

-- No choice means that no offer covers anything that remains.
gain-head :
    (x : Key) (xs : List Key) (o : Offer)
    → member x o.covers ≡ true
    → (length (gain (x ∷ xs) o) == 0) ≡ false
gain-head x xs o h = ground arith

best-none :
    (offers : List (Key × Offer)) (x : Key) (xs : List Key)
    → best offers (x ∷ xs) ≡ ok none
    → coverable offers x ≡ false
unfolding best
best-none [] x xs h = refl
best-none (y ∷ offers) x xs h = elim (Result-cases (best offers (x ∷ xs))) [
  | inl (rest, e) ↦ elim (Bool-cases (member x y.1.covers)) [
    | inl covered ↦ ground (arith, e, gain-head x xs y.1 covered)
    | inr apart ↦
        let next : best offers (x ∷ xs) ≡ ok none = ground (arith, e) in
        ground (arith, apart, best-none offers x xs next)
  ]
  | inr (r, e) ↦ ground (arith, e)
]

open-coverable :
    (offers : List (Key × Offer)) (o : Offer) (xs : List Key)
    → All (λ k. coverable offers k ≡ true) xs
    → All (λ k. coverable offers k ≡ true) (still_open xs o)
open-coverable offers o [] h = tt
open-coverable offers o (x ∷ xs) h = elim (Bool-cases (member x o.covers)) [
  | inl gone ↦ rw gone (open-coverable offers o xs h.1)
  | inr stays ↦ rw stays (h.0, open-coverable offers o xs h.1)
]

cover-is_ok :
    (n : ℕ) (offers : List (Key × Offer)) (remaining : List Key)
    → Paid offers
    → All (λ k. coverable offers k ≡ true) remaining
    → length remaining ≤ n
    → is_ok (cover n offers remaining) ≡ true
unfolding cover
cover-is_ok zero offers [] paid h fits = refl
cover-is_ok (suc n) offers [] paid h fits = refl
cover-is_ok zero offers (x ∷ xs) paid h fits = absurd (omega arith)
cover-is_ok (suc n) offers (x ∷ xs) paid h fits = elim (Result-cases (best offers (x ∷ xs))) [
  | inl (none, e) ↦ ground (arith, best-none offers x xs e, h.0)
  | inl (some c, e) ↦
      let (gained, _) = best-some offers (x ∷ xs) c (λ _. true) e refl in
      let shorter : length (still_open (x ∷ xs) c.1) ≤ n =
        omega (arith, gained, fits, gain-still_open (x ∷ xs) c.1) in
      let rest =
        cover-is_ok n offers (still_open (x ∷ xs) c.1) paid (open-coverable offers c.1 (x ∷ xs) h)
          shorter in
      elim (Result-cases (cover n offers (still_open (x ∷ xs) c.1))) [
        | inl (r, f) ↦ rw (e, f) refl
        | inr (r, f) ↦ ground (arith, f, rest)
      ]
  | inr (r, e) ↦ ground (arith, e, best-is_ok offers (x ∷ xs) paid)
]

-- Some selected offer covers the obligation.
abbrev pub covered_by : List (Key × Offer) → List Key → Key → Bool
covered_by offers selected k = any (λ e. member e.0 selected && member k e.1.covers) offers

covered_by-cons :
    (offers : List (Key × Offer)) (j k : Key) (selected : List Key)
    → covered_by offers selected k ≡ true
    → covered_by offers (j ∷ selected) k ≡ true
covered_by-cons [] j k selected h = cc
covered_by-cons (x ∷ offers) j k selected h = ground (arith, covered_by-cons offers j k selected)

covered_by-split :
    (offers : List (Key × Offer)) (c : Key × Offer) (selected xs all_open : List Key)
    → best offers all_open ≡ ok (some c)
    → All (λ k. covered_by offers selected k ≡ true) (still_open xs c.1)
    → All (λ k. covered_by offers (c.0 ∷ selected) k ≡ true) xs
covered_by-split offers c selected [] all_open e h = tt
covered_by-split offers c selected (x ∷ xs) all_open e h = elim (Bool-cases (member x c.1.covers)) [
  | inl now ↦
      let here =
        best-some offers all_open c (λ y. member y.0 (c.0 ∷ selected) && member x y.1.covers) e
          (ground (arith, now)) in
      (here.1, covered_by-split offers c selected xs all_open e (ground (arith, now, h)))
  | inr later ↦
      let kept = rw later at h in
      (
        covered_by-cons offers c.0 x selected kept.0,
        covered_by-split offers c selected xs all_open e kept.1,
      )
]

cover-covered_by :
    (n : ℕ) (offers : List (Key × Offer)) (remaining : List Key) (c : Cover.Cover)
    → cover n offers remaining ≡ ok c
    → All (λ k. covered_by offers c.selected k ≡ true) remaining
unfolding cover
cover-covered_by n offers [] c h = tt
cover-covered_by zero offers (x ∷ xs) c h = cc
cover-covered_by (suc n) offers (x ∷ xs) c h =
    let (choice, e, h1) = >>=-eq-ok (best offers (x ∷ xs)) _ h in
    let (chosen, f, h2) = >>=-eq-ok (or_raise choice Cover.uncovered_obligation) _ h1 in
    let (rest, g, h3) = >>=-eq-ok (cover n offers (still_open (x ∷ xs) chosen.1)) _ h2 in
    let chose : choice ≡ some chosen = ground (arith, f) in
    let open_covered = cover-covered_by n offers (still_open (x ∷ xs) chosen.1) rest g in
    let all_covered =
      covered_by-split offers chosen rest.selected (x ∷ xs) (x ∷ xs) (e ∙ ap ok chose)
        open_covered in
    subst (λ d. All (λ k. covered_by offers (Cover.Cover.selected d) k ≡ true) (x ∷ xs))
      (ok-injective h3) all_covered

-- The offers of a cover: those of the list that the loop selected, in its order.
pub data Priced (offers : List (Key × Offer)) : List Key → ℕ → Type 0 where
  nothing : Priced offers [] 0
  one_more :
      {ks : List Key} {n : ℕ} (k : Key) (o : Offer)
      → In (k, o) offers
      → Priced offers ks n
      → Priced offers (k ∷ ks) (o.cost + n)

best-In :
    (offers : List (Key × Offer)) (remaining : List Key) (c : Key × Offer)
    → best offers remaining ≡ ok (some c)
    → In c offers
unfolding best
best-In [] remaining c h = cc
best-In (x ∷ offers) remaining c h = elim (Result-cases (best offers remaining)) [
  | inl (rest, e) ↦ elim (Bool-cases (length (gain remaining x.1) == 0)) [
    | inl useless ↦ inr (best-In offers remaining c (ground (arith, e, useless)))
    | inr useful ↦ elim (first_of-cases remaining x rest) [
      | inl same ↦ inl (ground (arith, e, useful, same))
      | inr same ↦ inr (best-In offers remaining c (ground (arith, e, useful, same)))
    ]
  ]
  | inr (r, e) ↦ ground (arith, e)
]

cover-Priced :
    (n : ℕ) (offers : List (Key × Offer)) (remaining : List Key) (c : Cover.Cover)
    → cover n offers remaining ≡ ok c
    → Priced offers c.selected c.cost
unfolding cover
cover-Priced n offers [] c h =
    subst (λ d. Priced offers (Cover.Cover.selected d) (Cover.Cover.cost d)) (ok-injective h)
      nothing
cover-Priced zero offers (x ∷ xs) c h = cc
cover-Priced (suc n) offers (x ∷ xs) c h =
    let (choice, e, h1) = >>=-eq-ok (best offers (x ∷ xs)) _ h in
    let (chosen, f, h2) = >>=-eq-ok (or_raise choice Cover.uncovered_obligation) _ h1 in
    let (rest, g, h3) = >>=-eq-ok (cover n offers (still_open (x ∷ xs) chosen.1)) _ h2 in
    let chose : choice ≡ some chosen = ground (arith, f) in
    subst (λ d. Priced offers (Cover.Cover.selected d) (Cover.Cover.cost d)) (ok-injective h3)
      (one_more chosen.0 chosen.1 (best-In offers (x ∷ xs) chosen (e ∙ ap ok chose))
        (cover-Priced n offers (still_open (x ∷ xs) chosen.1) rest g))

-- Where every offer has a positive cost and every obligation is covered by some offer, the greedy
-- loop ends within as many rounds as there are obligations, every obligation is covered by an
-- offer that it selects, the cost is the sum of the costs of the selected offers, and it says
-- whether that is above the budget.
pub greedy_cover-covered_by :
    (obligations : List Key) (offers : List (Key × Offer)) (budget : ℕ)
    → All (λ (e : Key × Offer). (e.1.cost == 0) ≡ false) offers
    → All (λ k. coverable offers k ≡ true) obligations
    → (c : Cover.Cover) × (greedy_cover obligations offers budget ≡ ok (c, ltb budget c.cost))
      × All (λ k. covered_by offers c.selected k ≡ true) obligations
      × Priced offers c.selected c.cost
unfolding greedy_cover
greedy_cover-covered_by obligations offers budget paid h =
    let fine = cover-is_ok (length obligations) offers obligations paid h (omega arith) in
    elim (Result-cases (cover (length obligations) offers obligations)) [
      | inl (c, e) ↦ (
        c,
        rw e,
        cover-covered_by (length obligations) offers obligations c e,
        cover-Priced (length obligations) offers obligations c e,
      )
      | inr (r, e) ↦ ground (arith, e, fine)
    ]
