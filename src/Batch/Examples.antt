-- ===== src/Batch/Examples.antt =====
-- The theorem on batches at a batch of one authorship.
use knowledge_diffusion.Base.{Key, [], err, false, is_ok, none, refl, true, ℕ, ◌↔◌, ◌∷◌, ◌≡◌}
use knowledge_diffusion.Time.{unknown_range}
use knowledge_diffusion.Graph
use knowledge_diffusion.Graph.{Batch, Entity}
use knowledge_diffusion.Batch.{validate_batch}
use knowledge_diffusion.Batch.Soundness.{IsWellFormed, validate_batch-IsWellFormed}

abbrev entity : ℕ → Graph.EntityType → Entity
entity id kind = record { canonical_id = id; namespace = 7; kind = kind; is_site = false }

abbrev bare : Graph.Qualifiers
bare = record {
  date_basis = false;
  contributing_ids = false;
  role = none;
  role_title = none;
  institution_ids = [];
  start_uncertainty = none;
  end_uncertainty = none;
}

abbrev authorship : Key → Key → Graph.Assertion
authorship head tail = record {
  assertion_id = 20;
  head_id = head;
  relation = Graph.author_of;
  tail_id = tail;
  valid_time = unknown_range;
  observation_kind = Graph.publication;
  source = 3;
  raw_artifact_pointer = 9;
  qualifiers = bare;
}

abbrev batch : Graph.Assertion → Batch
batch a = record {
  namespace = 7;
  entities = entity 1 Graph.author ∷ entity 2 Graph.paper ∷ [];
  observations =
      record { observation_id = 30; entity_id = 1; kind = Graph.author; raw_artifact_pointer = 9 }
      ∷ [];
  assertions = a ∷ [];
  identities = record { source_id = 40; canonical_id = 2; evidence_hash = 9 } ∷ [];
  sources = (9, true) ∷ [];
}

accepted : is_ok (validate_batch (batch (authorship 1 2))) ≡ true
unfolding validate_batch Graph.validate_relation
accepted = refl

-- A paper is no author.
reversed_authorship : validate_batch (batch (authorship 2 1)) ≡ err Graph.endpoint_types
unfolding validate_batch Graph.validate_relation
reversed_authorship = refl

-- An assertion whose head the batch does not hold.
dangling : validate_batch (batch (authorship 5 2)) ≡ err Graph.missing_endpoint
unfolding validate_batch
dangling = refl

validate_batch-IsWellFormed_example :
    (is_ok (validate_batch (batch (authorship 1 2))) ≡ true) ↔ IsWellFormed (batch (authorship 1 2))
validate_batch-IsWellFormed_example = validate_batch-IsWellFormed (batch (authorship 1 2))
