-- ===== src/Claims/Cover.antt =====
-- `greedy_cover` of src/kdiff/analysis/claims.py: which witnesses are kept for a list of proof
-- obligations.
-- Obligations are a list without repetitions, costs are natural numbers, and ratios of gain to cost
-- are compared exactly. The fuel of the loop is the number of obligations.
use knowledge_diffusion.Base.{
  Bool, Key, List, Option, Result, [], err, if◌then◌else◌, length, ltb, member, none, not, ok,
  or_raise, raise_if, select, some, suc, zero, ℕ, ◌&&◌, ◌*◌, ◌+◌, ◌==◌, ◌>>=◌, ◌>>◌, ◌||◌, ◌∷◌,
}

pub record Offer : Type 0 where
  pub covers : List Key
  pub cost : ℕ

pub data CoverError : Type 0 where
  cost_not_positive uncovered_obligation out_of_fuel : CoverError

-- `remaining & set(offer['covers'])`
abbrev pub gain : List Key → Offer → List Key
gain remaining o = select (λ k. member k o.covers) remaining

-- `remaining - gain`
abbrev pub still_open : List Key → Offer → List Key
still_open remaining o = select (λ k. not (member k o.covers)) remaining

-- The order of `(-(len(gain)/cost), key)`.
abbrev pub precedes : List Key → Key × Offer → Key × Offer → Bool
precedes remaining (k, o) (j, p) =
    let a = length (gain remaining o) * p.cost in
    let b = length (gain remaining p) * o.cost in ltb b a || a == b && ltb k j

abbrev pub first_of : List Key → Key × Offer → Option (Key × Offer) → Key × Offer
first_of remaining x none = x
first_of remaining x (some y) = if precedes remaining y x then y else x

-- `min` of the offers with a gain.
unfoldable pub best : List (Key × Offer) → List Key → Result CoverError (Option (Key × Offer))
best [] remaining = ok none
best (x ∷ offers) remaining = do
  let useless = length (gain remaining x.1) == 0
  raise_if (not useless && x.1.cost == 0) cost_not_positive
  rest ← best offers remaining
  ok (if useless then rest else some (first_of remaining x rest))

pub record Cover : Type 0 where
  pub selected : List Key
  pub cost : ℕ

abbrev pub with_offer : Key × Offer → Cover → Cover
with_offer (k, o) c = record { selected = k ∷ c.selected; cost = o.cost + c.cost }

-- The `while` loop.
unfoldable pub cover : ℕ → List (Key × Offer) → List Key → Result CoverError Cover
cover n offers [] = ok (record { selected = []; cost = 0 })
cover zero offers (x ∷ xs) = err out_of_fuel
cover (suc n) offers (x ∷ xs) = do
  choice ← best offers (x ∷ xs)
  chosen ← or_raise choice uncovered_obligation
  rest ← cover n offers (still_open (x ∷ xs) chosen.1)
  ok (with_offer chosen rest)

-- What the caller gets: the cover, and whether it costs more than was asked.
unfoldable pub greedy_cover : List Key → List (Key × Offer) → ℕ → Result CoverError (Cover × Bool)
greedy_cover obligations offers budget = do
  c ← cover (length obligations) offers obligations
  ok (c, ltb budget c.cost)
