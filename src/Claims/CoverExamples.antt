-- ===== src/Claims/CoverExamples.antt =====
-- The theorem on the greedy cover at three offers.
use knowledge_diffusion.Base.{All, Key, List, [], err, ltb, ok, refl, true, ℕ, ◌∷◌, ◌≡◌}
use knowledge_diffusion.Claims.Cover
use knowledge_diffusion.Claims.Cover.{Offer, greedy_cover, cover, best}
use knowledge_diffusion.Claims.Coverage.{Priced, covered_by, greedy_cover-covered_by}

abbrev offer : List Key → ℕ → Offer
offer covers cost = record { covers = covers; cost = cost }

abbrev offers : List (Key × Offer)
offers =
    (1, offer (10 ∷ 11 ∷ []) 2) ∷ (2, offer (12 ∷ []) 3) ∷ (3, offer (10 ∷ 11 ∷ 12 ∷ []) 2) ∷ []

abbrev obligations : List Key
obligations = 10 ∷ 11 ∷ 12 ∷ []

-- The third offer covers most for its cost.
cover-obligations :
    greedy_cover obligations offers 1 ≡ ok (record { selected = 3 ∷ []; cost = 2 }, true)
unfolding greedy_cover cover best
cover-obligations = refl

cover-unknown : greedy_cover (13 ∷ []) offers 1 ≡ err Cover.uncovered_obligation
unfolding greedy_cover cover best
cover-unknown = refl

greedy_cover-covered_by_example :
    (c : Cover.Cover) × (greedy_cover obligations offers 1 ≡ ok (c, ltb 1 c.cost))
    × All (λ k. covered_by offers c.selected k ≡ true) obligations
    × Priced offers c.selected c.cost
greedy_cover-covered_by_example =
    greedy_cover-covered_by obligations offers 1 (refl, (refl, (refl, tt)))
      (refl, (refl, (refl, tt)))
