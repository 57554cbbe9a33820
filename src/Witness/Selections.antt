-- ===== src/Witness/Selections.antt =====
-- `proof_selection` of src/kdiff/analysis/general_witness.py: the obligations of a program's witness,
-- and the evidence cards that cover them.
-- Obligations and cards are data; the texts that name them are parameters, as keys in their order.
use knowledge_diffusion.Base.{
  Bool, Key, List, Option, Result, [], add_key, concat_map, dict, distinct, err, first_seen,
  if◌then◌else◌, map, none, ok, or_raise, row_at, select, some, sort_by, sorted, ℕ, ◌++◌, ◌==◌,
  ◌>>=◌, ◌∷◌,
}
use knowledge_diffusion.Graph.{Assertion}
use knowledge_diffusion.Executor.{Naming}
use knowledge_diffusion.Values
use knowledge_diffusion.Values.{Value, EdgesValue}
use knowledge_diffusion.Claims.{Pool, pool_get}
use knowledge_diffusion.Claims.Cover
use knowledge_diffusion.Claims.Cover.{Offer, CoverError, greedy_cover}
use knowledge_diffusion.Program.{Step}
use knowledge_diffusion.Witness.Counts.{FrozenGraph}

pub data Obligation : Type 0 where
  release_integrity claim_entailment counterevidence : Obligation
  typed_derivation complete_operands : Key → Obligation
  fact : Key → Obligation

pub data Card : Type 0 where
  release full_pool claim : Card
  of_step of_source : Key → Card

pub data Reference : Type 0 where
  frozen_graph complete_execution : Reference
  cited : Key → Reference

pub record Bundle : Type 0 where
  pub covers : List Key
  pub cost : ℕ
  pub references : List Reference

pub record Selection : Type 0 where
  pub selected : List Key
  pub cost : ℕ
  pub requested_budget : ℕ
  pub budget_relaxed : Bool
  pub covered : List Key
  pub bundles : List (Key × Bundle)

pub data SelectionError : Type 0 where
  missing_step unavailable_operand : SelectionError
  not_covered : CoverError → SelectionError

-- `value.get('input_ids', [])`
abbrev pub input_ids : Value → List Key
input_ids (Values.entities ids kind inputs) = inputs
input_ids (Values.paths p) = p.input_ids
input_ids (Values.aggregate a) = a.input_ids
input_ids (Values.event_trace t) = t.input_ids
input_ids (Values.mobility_returns r) = r.input_ids
input_ids _ = []

abbrev pub or_empty : Option (List Key) → List Key
or_empty none = []
or_empty (some ids) = ids

abbrev pub edge_ids : Value → List Key
edge_ids (Values.edges e) = e.ids ++ or_empty e.filter_input_ids
edge_ids _ = []

abbrev pub operands : Value → List Key
operands v = distinct (input_ids v ++ edge_ids v)

abbrev pub pointer_or : Option Naming → Option Assertion → Option Key
pointer_or (some o) a = some o.raw_artifact_pointer
pointer_or none (some a) = some a.raw_artifact_pointer
pointer_or none none = none

-- The source of `records[id]`: an observation replaces an assertion.
unfoldable pub source_of : FrozenGraph → Key → Option Key
source_of g id =
    pointer_or (row_at (λ o. o.observation_id) (dict (λ o. o.observation_id) g.observations) id)
      (row_at (λ a. a.assertion_id) (dict (λ a. a.assertion_id) g.assertions) id)

-- `by_source`: the records of each source.
abbrev pub Sources : Type 0
Sources = List (Key × List Key)

-- `by_source.setdefault(source, set()).add(id)`
abbrev pub put_source : Key → Key → Sources → Sources
put_source source id [] = (source, id ∷ []) ∷ []
put_source source id ((s, ids) ∷ rest) =
    let more = put_source source id rest in
    if s == source then (s, add_key id ids) ∷ rest else (s, ids) ∷ more

unfoldable pub add_operands : FrozenGraph → List Key → Sources → Result SelectionError Sources
add_operands g [] sources = ok sources
add_operands g (id ∷ ids) sources = do
  source ← or_raise (source_of g id) unavailable_operand
  add_operands g ids (put_source source id sources)

-- The loop over the program's steps.
unfoldable pub collect_sources :
    FrozenGraph → Pool → List Step → Sources → Result SelectionError Sources
collect_sources g pool [] sources = ok sources
collect_sources g pool (step ∷ steps) sources = do
  value ← or_raise (pool_get pool step.id) missing_step
  more ← add_operands g (operands value) sources
  collect_sources g pool steps more

abbrev pub or_not_covered {ℓ} : {A : Type ℓ} → Result CoverError A → Result SelectionError A
or_not_covered (ok a) = ok a
or_not_covered (err e) = err (not_covered e)

module _ (obligation_text : Obligation → Key) (card_text : Card → Key) where
  abbrev pub fixed_obligations : List Key
  fixed_obligations =
      map obligation_text (release_integrity ∷ claim_entailment ∷ counterevidence ∷ [])

  abbrev pub step_obligations : Key → List Key
  step_obligations id = map obligation_text (typed_derivation id ∷ complete_operands id ∷ [])

  -- `sorted(covered)` of a source.
  abbrev pub facts : Key × List Key → List Key
  facts (source, ids) = sorted (map (λ id. obligation_text (fact id)) ids)

  abbrev pub card : Card → List Key → List Reference → Key × Bundle
  card c covers references =
      (card_text c, record { covers = covers; cost = 1; references = references })

  abbrev pub fixed_cards : Key → List (Key × Bundle)
  fixed_cards claim_id =
      card release (obligation_text release_integrity ∷ []) (frozen_graph ∷ [])
      ∷ card full_pool (obligation_text counterevidence ∷ []) (complete_execution ∷ [])
      ∷ card claim (obligation_text claim_entailment ∷ []) (cited claim_id ∷ [])
      ∷ []

  abbrev pub step_card : Key → Key × Bundle
  step_card id = card (of_step id) (step_obligations id) (cited id ∷ [])

  abbrev pub source_card : Key × List Key → Key × Bundle
  source_card (source, ids) =
      card (of_source source) (facts (source, ids)) (cited source ∷ map cited (sorted ids))

  abbrev pub step_ids : List Step → List Key
  step_ids steps = first_seen (map (λ s. s.id) steps)

  abbrev pub obligations : List Key → Sources → List Key
  obligations ids sources = sorted (
      distinct (fixed_obligations ++ (concat_map step_obligations ids ++ concat_map facts sources)))

  abbrev pub cards : Key → List Key → Sources → List (Key × Bundle)
  cards claim_id ids sources =
      fixed_cards claim_id ++ (map step_card ids ++ map source_card sources)

  abbrev pub offer_of : Key × Bundle → Key × Offer
  offer_of (key, b) = (key, record { covers = b.covers; cost = b.cost })

  -- `{key: offers[key] for key in selected}`
  abbrev pub chosen : List (Key × Bundle) → List Key → List (Key × Bundle)
  chosen offers [] = []
  chosen offers (k ∷ ks) = select (λ o. o.0 == k) offers ++ chosen offers ks

  abbrev pub selection_of :
      List Key → List (Key × Bundle) → ℕ → Cover.Cover × Bool → List Key × Selection
  selection_of needed offers budget (c, relaxed) = (
    needed,
    record {
      selected = c.selected;
      cost = c.cost;
      requested_budget = budget;
      budget_relaxed = relaxed;
      covered = needed;
      bundles = chosen offers c.selected;
    },
  )

  unfoldable pub proof_selection :
      List Step → Pool → Key → FrozenGraph → ℕ → Result SelectionError (List Key × Selection)
  proof_selection steps pool claim_id g budget = do
    by_source ← collect_sources g pool steps []
    let sources = sort_by (λ s. s.0) by_source
    let needed = obligations (step_ids steps) sources
    let offers = cards claim_id (step_ids steps) sources
    covering ← or_not_covered (greedy_cover needed (map offer_of offers) budget)
    ok (selection_of needed offers budget covering)
