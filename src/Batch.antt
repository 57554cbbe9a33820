-- ===== src/Batch.antt =====
-- `validate_batch` of src/kdiff/construction/openalex.py: the gate that every batch passes before
-- it is written to the graph.
pub mod Relations
pub mod Soundness
mod Examples
use knowledge_diffusion.Base.{
  Bool, Key, List, Option, Result, [], any, err, false, find?, is_some, map, member, none, not, ok,
  raise_if, some, true, ◌&&◌, ◌==◌, ◌>>◌, ◌∷◌,
}
use knowledge_diffusion.Graph
use knowledge_diffusion.Graph.{
  Entity, Observation, Assertion, Identity, Batch, SchemaError, validate_relation, duplicate_entity,
  namespace_differs, bad_hash, no_source, no_evidence, missing_endpoint, no_entity,
  no_identity_endpoint,
}

abbrev pub is_entity : Key → Entity → Bool
is_entity id e = e.canonical_id == id

-- `entities[id]`
abbrev pub entity_at : List Entity → Key → Option Entity
entity_at entities id = find? (is_entity id) entities

-- `len({e.canonical_id: e …}) == len(batch.entities)`
abbrev pub distinct_ids : List Entity → Bool
distinct_ids [] = true
distinct_ids (e ∷ es) = not (any (is_entity e.canonical_id) es) && distinct_ids es

-- Both endpoints are entities of the batch.
abbrev pub has_endpoints : List Entity → Assertion → Bool
has_endpoints entities a =
    is_some (entity_at entities a.head_id) && is_some (entity_at entities a.tail_id)

abbrev pub check_pair : Assertion → Option Entity → Option Entity → Result SchemaError (Unit {0})
check_pair a (some head) (some tail) = validate_relation a.relation head tail a.qualifiers
check_pair a _ _ = err missing_endpoint

unfoldable pub check_assertions : List Entity → List Assertion → Result SchemaError (Unit {0})
check_assertions entities [] = ok tt
check_assertions entities (a ∷ as') =
    check_pair a (entity_at entities a.head_id) (entity_at entities a.tail_id)
    >> check_assertions entities as'

abbrev pub describes : Option Entity → Observation → Bool
describes none o = false
describes (some e) o = Graph.same_kind e.kind o.kind

abbrev pub matches_entity : List Entity → Observation → Bool
matches_entity entities o = describes (entity_at entities o.entity_id) o

unfoldable pub validate_batch : Batch → Result SchemaError Batch
unfolding check_assertions
validate_batch b = do
  let sources = map (λ s. s.0) b.sources
  raise_if (not (distinct_ids b.entities)) duplicate_entity
  raise_if (any (λ e. not (e.namespace == b.namespace)) b.entities) namespace_differs
  raise_if (any (λ s. not s.1) b.sources) bad_hash
  raise_if (any (λ o. not (member o.raw_artifact_pointer sources)) b.observations) no_source
  raise_if (any (λ a. not (member a.raw_artifact_pointer sources)) b.assertions) no_source
  raise_if (any (λ i. not (member i.evidence_hash sources)) b.identities) no_evidence
  check_assertions b.entities b.assertions
  raise_if (any (λ o. not (matches_entity b.entities o)) b.observations) no_entity
  raise_if (any (λ i. not (is_some (entity_at b.entities i.canonical_id))) b.identities)
      no_identity_endpoint
  ok b
