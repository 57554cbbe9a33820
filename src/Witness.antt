-- ===== src/Witness.antt =====
-- The count programs of src/kdiff/analysis/program.py; the children have the counts over a frozen
-- release and the replay of their witnesses, of src/kdiff/analysis/witness.py.
pub mod Counts
pub mod Bundles
pub mod Papers
pub mod Replays
pub mod Selections
pub mod Covered
pub mod Programs
pub mod Reproduced
pub mod Made
pub mod Freezing
mod Examples
mod ProgramExamples
use knowledge_diffusion.Base.{
  Bool, Key, List, Result, [], any, err, false, member, not, ok, raise_if, true, ◌&&◌, ◌>>◌, ◌||◌,
  ◌∷◌,
}
use knowledge_diffusion.Time.{Window}
use knowledge_diffusion.Graph
use knowledge_diffusion.Graph.{Entity, Assertion, Observation}
use knowledge_diffusion.Values.{same_relation}
use knowledge_diffusion.Claims
use knowledge_diffusion.Claims.{Label, same_keys}
use knowledge_diffusion.Executor.{ExecError}
use knowledge_diffusion.Executor.Counting.{tally, group_of, objects_of}

-- `CountRequest`; its policy has one value.
pub record CountRequest : Type 0 where
  pub author_id : Key
  pub window : Window

pub data Operator : Type 0 where
  resolve_entity normalize_time aggregate project_provenance : Operator

pub record CountStep : Type 0 where
  pub id : Key
  pub operator : Operator
  pub depends_on : List Key

pub record CountProgram : Type 0 where
  pub release_id : Key
  pub request : CountRequest
  pub steps : List CountStep

pub data WitnessError : Type 0 where
  bad_dependency bad_grammar incomplete_proof : WitnessError
  unsupported_release hash_mismatch missing_artifact missing_operand : WitnessError
  no_author missing_paper undated_papers : WitnessError
  unverified_claim unsupported_witness release_differs not_replayed unsupported_claim : WitnessError
  no_obligations : WitnessError

-- The loop of `CountProgram.valid`.
abbrev pub check_order : List Key → List CountStep → Result WitnessError (Unit {0})
check_order seen [] = ok tt
check_order seen (s ∷ steps) = do
  raise_if (member s.id seen || any (λ d. not (member d seen)) s.depends_on) bad_dependency
  check_order (s.id ∷ seen) steps

abbrev pub is_operator : Operator → Operator → Bool
is_operator resolve_entity resolve_entity = true
is_operator normalize_time normalize_time = true
is_operator aggregate aggregate = true
is_operator project_provenance project_provenance = true
is_operator _ _ = false

-- The four steps in their order, with the dependencies of a complete proof.
abbrev pub check_grammar : List CountStep → Result WitnessError (Unit {0})
check_grammar (a ∷ b ∷ c ∷ d ∷ []) = do
  raise_if
      (not (
        is_operator a.operator resolve_entity
        && is_operator b.operator normalize_time
        && is_operator c.operator aggregate
        && is_operator d.operator project_provenance))
      bad_grammar
  raise_if
      (not (
        same_keys a.depends_on []
        && same_keys b.depends_on (a.id ∷ [])
        && same_keys c.depends_on (a.id ∷ b.id ∷ [])
        && same_keys d.depends_on (c.id ∷ [])))
      incomplete_proof
check_grammar _ = err bad_grammar

-- `CountProgram.valid`
unfoldable pub valid_count : CountProgram → Result WitnessError CountProgram
valid_count p = do check_order [] p.steps; check_grammar p.steps; ok p

abbrev pub count_step : Key → Operator → List Key → CountStep
count_step id operator deps = record { id = id; operator = operator; depends_on = deps }

-- `count_program`, whose steps are named 0 to 3.
unfoldable pub count_program : CountRequest → Key → CountProgram
count_program request release_id = record {
  release_id = release_id;
  request = request;
  steps =
      count_step 0 resolve_entity []
      ∷ count_step 1 normalize_time (0 ∷ [])
      ∷ count_step 2 aggregate (0 ∷ 1 ∷ [])
      ∷ count_step 3 project_provenance (2 ∷ [])
      ∷ [];
}
