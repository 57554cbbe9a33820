-- ===== src/Claims.antt =====
-- Atomic claims of src/kdiff/analysis/claims.py: `candidate` and `verify`; the child Cover has
-- `greedy_cover`.
-- The hashes of `digest` are parameters: `digest_value` of a result, `digest_claim` of the list that
-- identifies a claim, and `digest_scoped` of a narrowed one.
pub mod Licences
pub mod Support
pub mod Cover
pub mod Coverage
pub mod Synthesis
pub mod Partition
pub mod Rendering
mod Examples
mod CoverExamples
use knowledge_diffusion.Base.{
  Bool, Key, List, Option, Result, [], decided, false, if◌then◌else◌, length, none, not, ok,
  or_raise, some, true, ℕ, ℕ_discrete, ◌==◌, ◌>>=◌, ◌>>◌, ◌||◌, ◌∷◌,
}
use knowledge_diffusion.Values
use knowledge_diffusion.Values.{Value, Value-discrete}

pub data Label : Type 0 where
  supported partial unsupported contradicted ambiguous nei : Label

pub data Predicate : Type 0 where
  recorded_count recorded_comparison recorded_paths recorded_facts scoped_absence : Predicate
  causal_effect documented_causal_attribution plausible_contribution : Predicate
  capability_transformation recorded_identity recorded_state recorded_returns : Predicate

-- `requested_scope`: 'frozen_release', or another text.
pub data Scope : Type 0 where
  frozen_release : Scope
  wider : Key → Scope

-- `value`: a number for an aggregate, else the whole result.
pub data ClaimValue : Type 0 where
  number : ℕ → ClaimValue
  whole : Value → ClaimValue

pub record AtomicClaim : Type 0 where
  pub claim_id : Key
  pub predicate : Predicate
  pub step_id : Key
  pub value : ClaimValue
  pub requested_scope : Scope
  pub evidence_ids : List Key
  pub original_claim_id : Option Key

pub data Reason : Type 0 where
  unresolved counterevidence incomplete not_cited no_template : Reason
  absence_needs_query query_returned only_snapshot scoped_absence_holds : Reason
  conflicts narrower_coverage matches : Reason

pub record Verification : Type 0 where
  pub claim : AtomicClaim
  pub label : Label
  pub reason : Reason
  pub licensed_claim : Option AtomicClaim
  pub original_label : Label
  pub unmet_scope : Option Scope

pub data ClaimError : Type 0 where
  not_presentable unassigned_witness unlicensed_change : ClaimError

pub Predicate-discrete : Discrete Predicate
Predicate-discrete = hlevel

pub ClaimValue-discrete : Discrete ClaimValue
ClaimValue-discrete = hlevel (ℕ_discrete, Value-discrete)

pub Keys-discrete : Discrete (List Key)
Keys-discrete = hlevel ℕ_discrete

abbrev pub same_predicate : Predicate → Predicate → Bool
same_predicate a b = decided (Predicate-discrete a b)

abbrev pub same_value : ClaimValue → ClaimValue → Bool
same_value a b = decided (ClaimValue-discrete a b)

abbrev pub same_keys : List Key → List Key → Bool
same_keys a b = decided (Keys-discrete a b)

abbrev pub is_frozen : Scope → Bool
is_frozen frozen_release = true
is_frozen (wider _) = false

-- `result.get('complete', False)`
abbrev pub complete : Value → Bool
complete (Values.window _) = false
complete (Values.state _ _) = false
complete _ = true

-- The predicate that `candidate` gives each type of result.
abbrev pub presentable : Value → Option Predicate
presentable (Values.aggregate _) = some recorded_count
presentable (Values.comparison _) = some recorded_comparison
presentable (Values.paths _) = some recorded_paths
presentable (Values.edges _) = some recorded_facts
presentable (Values.entities _ _ _) = some recorded_identity
presentable (Values.event_trace _) = some recorded_state
presentable (Values.mobility_returns _) = some recorded_returns
presentable _ = none

abbrev pub claimed_value : Value → ClaimValue
claimed_value (Values.aggregate a) = number a.value
claimed_value result = whole result

abbrev pub is_causal : Predicate → Bool
is_causal causal_effect = true
is_causal documented_causal_attribution = true
is_causal plausible_contribution = true
is_causal capability_transformation = true
is_causal _ = false

abbrev pub is_absence : Predicate → Bool
is_absence scoped_absence = true
is_absence _ = false

-- How many records a query of the three types that show absence returned.
abbrev pub result_size : Value → Option ℕ
result_size (Values.aggregate a) = some a.value
result_size (Values.edges e) = some (length e.ids)
result_size (Values.paths p) = some (length p.found)
result_size _ = none

abbrev pub is_number_zero : ClaimValue → Bool
is_number_zero (number n) = n == 0
is_number_zero (whole _) = false

abbrev pub Pool : Type 0
Pool = List (Key × Value)

-- `pool.get(step_id)`
abbrev pub pool_get : Pool → Key → Option Value
pool_get [] id = none
pool_get ((k, v) ∷ pool) id = let rest = pool_get pool id in if k == id then some v else rest

abbrev pub decision :
    AtomicClaim → Label → Reason → Option AtomicClaim → Option Scope → Verification
decision claim label reason licensed unmet = record {
  claim = claim;
  label = label;
  reason = reason;
  licensed_claim = licensed;
  original_label = label;
  unmet_scope = unmet;
}

abbrev pub withheld : AtomicClaim → Label → Reason → Verification
withheld claim label reason = decision claim label reason none none

module _ (digest_value : Value → Key) (digest_claim : Key → Predicate → ClaimValue → Scope → Key)
    (digest_scoped : Key → Key) where
  abbrev pub candidate_of : Key → Value → Scope → Predicate → AtomicClaim
  candidate_of step_id result scope predicate = record {
    claim_id = digest_claim step_id predicate (claimed_value result) scope;
    predicate = predicate;
    step_id = step_id;
    value = claimed_value result;
    requested_scope = scope;
    evidence_ids = digest_value result ∷ [];
    original_claim_id = none;
  }

  unfoldable pub candidate : Key → Value → Scope → Result ClaimError AtomicClaim
  candidate step_id result scope = do
    predicate ← or_raise (presentable result) not_presentable
    ok (candidate_of step_id result scope predicate)

  -- The narrowed claim of absence.
  abbrev pub scoped : AtomicClaim → AtomicClaim
  scoped claim = record claim {
    requested_scope = frozen_release;
    original_claim_id = some claim.claim_id;
    claim_id = digest_scoped claim.claim_id;
  }

  -- The branch of `verify` for 'scoped_absence'.
  unfoldable pub verify_absence : AtomicClaim → Option ℕ → Verification
  verify_absence claim none = withheld claim unsupported absence_needs_query
  verify_absence claim (some size) =
      if not (is_number_zero claim.value)
      then withheld claim unsupported absence_needs_query
      else if not (size == 0)
      then withheld claim contradicted query_returned
      else if not (is_frozen claim.requested_scope)
      then decision claim partial only_snapshot (some (scoped claim)) (some claim.requested_scope)
      else decision claim supported scoped_absence_holds (some claim) none

  -- The branch for a recorded value.
  unfoldable pub verify_recorded : AtomicClaim → AtomicClaim → Verification
  verify_recorded claim expected =
      if not (same_predicate claim.predicate expected.predicate)
        || not (same_value claim.value expected.value)
      then withheld claim contradicted conflicts
      else if not (is_frozen claim.requested_scope)
      then decision claim partial narrower_coverage
          (some (record expected { original_claim_id = some claim.claim_id }))
          (some claim.requested_scope)
      else decision claim supported matches (some claim) none

  -- The branches after the complete result has been found.
  unfoldable pub verify_result : AtomicClaim → Value → Result ClaimError Verification
  verify_result claim result =
      if not (same_keys claim.evidence_ids (digest_value result ∷ []))
      then ok (withheld claim unsupported not_cited)
      else if is_causal claim.predicate
      then ok (withheld claim nei no_template)
      else if is_absence claim.predicate
      then ok (verify_absence claim (result_size result))
      else do
        expected ← candidate claim.step_id result frozen_release
        ok (verify_recorded claim expected)

  abbrev pub verify_found : AtomicClaim → Option Value → Result ClaimError Verification
  verify_found claim none = ok (withheld claim nei incomplete)
  verify_found claim (some result) =
      if not (complete result)
      then ok (withheld claim nei incomplete)
      else verify_result claim result

  unfoldable pub verify : AtomicClaim → Pool → Bool → Bool → Result ClaimError Verification
  verify claim pool is_ambiguous is_countered =
      if is_ambiguous
      then ok (withheld claim ambiguous unresolved)
      else if is_countered
      then ok (withheld claim contradicted counterevidence)
      else verify_found claim (pool_get pool claim.step_id)
