-- ===== src/Batch/Soundness.antt =====
-- What `validate_batch` of src/kdiff/construction/openalex.py guarantees of a batch.
use knowledge_diffusion.Base.{
  ==→eq, >>=-eq-ok, All, Bool, Key, List, Option, Option-cases, Unique, [], any-All, arith, inl,
  inr, is_ok, is_some, map, member, none, ok, refl, some, true, ◌==◌, ◌↔◌, ◌∷◌, ◌≡◌,
}
use knowledge_diffusion.Graph.{Entity, Observation, Assertion, Identity, Batch}
use knowledge_diffusion.Batch.Relations.{
  At, Allowed, ids_of, same_kind-eq, validate_relation-Allowed, distinct_ids-Unique, entity_at-At,
  At-entity_at,
}
use knowledge_diffusion.Batch.{
  entity_at, check_assertions, check_pair, matches_entity, validate_batch,
}

-- Both ends of an assertion are entities of the batch, and the registry allows it.
abbrev pub IsTyped : List Entity → Assertion → Type 0
IsTyped entities a =
    (head : Entity) × (tail : Entity) × At entities a.head_id head
    × At entities a.tail_id tail
    × Allowed a.relation head tail a.qualifiers

-- An observation describes an entity of the batch by its kind.
abbrev pub Describes : List Entity → Observation → Type 0
Describes entities o = (e : Entity) × At entities o.entity_id e × (e.kind ≡ o.kind)

abbrev pub sources_of : Batch → List Key
sources_of b = map (λ s. s.0) b.sources

pub record IsWellFormed (b : Batch) : Type 0 where
  pub ids_distinct : Unique (ids_of b.entities)
  pub one_namespace : All (λ (e : Entity). e.namespace ≡ b.namespace) b.entities
  pub hashes : All (λ (s : Key × Bool). s.1 ≡ true) b.sources
  pub observations_sourced :
      All (λ (o : Observation). member o.raw_artifact_pointer (sources_of b) ≡ true) b.observations
  pub assertions_sourced :
      All (λ (a : Assertion). member a.raw_artifact_pointer (sources_of b) ≡ true) b.assertions
  pub mappings_sourced :
      All (λ (i : Identity). member i.evidence_hash (sources_of b) ≡ true) b.identities
  pub typed : All (IsTyped b.entities) b.assertions
  pub described : All (Describes b.entities) b.observations
  pub mapped : All (λ (i : Identity). (e : Entity) × At b.entities i.canonical_id e) b.identities

All-iff :
    {A : Type 0} (P Q : A → Type 0) → ((x : A) → P x ↔ Q x) → (xs : List A) → All P xs ↔ All Q xs
All-iff P Q same [] = (λ h. tt, λ h. tt)
All-iff P Q same (x ∷ xs) = (
  λ (h, k). ((same x).0 h, (All-iff P Q same xs).0 k),
  λ (h, k). ((same x).1 h, (All-iff P Q same xs).1 k),
)

module _ (entities : List Entity) (u : Unique (ids_of entities)) where
  check_pair-eq-ok :
      (a : Assertion) (head tail : Option Entity)
      → entity_at entities a.head_id ≡ head
      → entity_at entities a.tail_id ≡ tail
      → check_pair a head tail ≡ ok tt
      → IsTyped entities a
  check_pair-eq-ok a (some head) (some tail) eh et h = (
    head,
    tail,
    entity_at-At entities a.head_id head eh,
    entity_at-At entities a.tail_id tail et,
    (validate_relation-Allowed a.relation head tail a.qualifiers).0 h,
  )
  check_pair-eq-ok a none tail eh et h = cc
  check_pair-eq-ok a (some head) none eh et h = cc

  check_assertions-eq-ok :
      (as' : List Assertion) → (check_assertions entities as' ≡ ok tt) ↔ All (IsTyped entities) as'
  unfolding check_assertions
  check_assertions-eq-ok [] = (λ h. tt, λ h. refl)
  check_assertions-eq-ok (a ∷ as') = (
    λ h.
        let (_, first, rest) =
          >>=-eq-ok (check_pair a (entity_at entities a.head_id) (entity_at entities a.tail_id)) _
            h in
        (
          check_pair-eq-ok a (entity_at entities a.head_id) (entity_at entities a.tail_id) refl refl
              first,
          (check_assertions-eq-ok as').0 rest,
        ),
    λ ((head, tail, eh, et, allowed), rest).
        rw
          (
            At-entity_at entities a.head_id head u eh,
            At-entity_at entities a.tail_id tail u et,
            (validate_relation-Allowed a.relation head tail a.qualifiers).1 allowed,
          )
          ((check_assertions-eq-ok as').1 rest),
  )

  entity_at-some :
      (id : Key) → (is_some (entity_at entities id) ≡ true) ↔ ((e : Entity) × At entities id e)
  entity_at-some id = (
    λ h. elim (Option-cases (entity_at entities id)) [
      | inl e ↦ ground (arith, h, e)
      | inr (e, f) ↦ (e, entity_at-At entities id e f)
    ],
    λ (e, a). rw (At-entity_at entities id e u a) refl,
  )

  matches_entity-Describes :
      (o : Observation) → (matches_entity entities o ≡ true) ↔ Describes entities o
  matches_entity-Describes o = (
    λ h. elim (Option-cases (entity_at entities o.entity_id)) [
      | inl e ↦ ground (arith, h, e)
      | inr (e, f) ↦ (
        e,
        entity_at-At entities o.entity_id e f,
        (same_kind-eq e.kind o.kind).0 (ground (arith, h, f)),
      )
    ],
    λ (e, a, k).
        rw (At-entity_at entities o.entity_id e u a, (same_kind-eq e.kind o.kind).1 k) refl,
  )

-- A batch passes exactly when it is well formed: its entities have distinct identifiers and its own
-- namespace, its sources have well-formed hashes, every observation, assertion and identity mapping
-- cites one of its sources, every assertion joins entities of the batch, of the types that the
-- registry gives its relation, with what the relation requires and, for a grant that an institution
-- gives, the role of a sponsor or an administrator, every observation describes an entity of the
-- batch by its kind, and every mapping leads to an entity of the batch.
pub validate_batch-IsWellFormed : (b : Batch) → (is_ok (validate_batch b) ≡ true) ↔ IsWellFormed b
unfolding validate_batch
validate_batch-IsWellFormed b =
    let sourced = λ (k : Key). member k (sources_of b) in
    let namespaces = any-All (λ (e : Entity). e.namespace == b.namespace) b.entities in
    let hashes = any-All (λ (s : Key × Bool). s.1) b.sources in
    let observed = any-All (λ (o : Observation). sourced o.raw_artifact_pointer) b.observations in
    let asserted = any-All (λ (a : Assertion). sourced a.raw_artifact_pointer) b.assertions in
    let evidence = any-All (λ (i : Identity). sourced i.evidence_hash) b.identities in
    let described = any-All (matches_entity b.entities) b.observations in
    let mapped =
      any-All (λ (i : Identity). is_some (entity_at b.entities i.canonical_id)) b.identities in
    let one =
      All-iff (λ (e : Entity). (e.namespace == b.namespace) ≡ true)
        (λ (e : Entity). e.namespace ≡ b.namespace)
        (λ e. (==→eq e.namespace b.namespace, λ h. ground (arith, h))) b.entities in
    let describing = λ (u : Unique (ids_of b.entities)).
      All-iff (λ o. matches_entity b.entities o ≡ true) (Describes b.entities)
        (matches_entity-Describes b.entities u) b.observations in
    let mapping = λ (u : Unique (ids_of b.entities)).
      All-iff (λ (i : Identity). is_some (entity_at b.entities i.canonical_id) ≡ true)
        (λ (i : Identity). (e : Entity) × At b.entities i.canonical_id e)
        (λ i. entity_at-some b.entities u i.canonical_id) b.identities in
    (
      λ h.
          let u = (distinct_ids-Unique b.entities).0 (ground arith) in
          record {
            ids_distinct = u;
            one_namespace = one.0 (namespaces.0 (ground arith));
            hashes = hashes.0 (ground arith);
            observations_sourced = observed.0 (ground arith);
            assertions_sourced = asserted.0 (ground arith);
            mappings_sourced = evidence.0 (ground arith);
            typed = (check_assertions-eq-ok b.entities u b.assertions).0 (ground arith);
            described = (describing u).0 (described.0 (ground arith));
            mapped = (mapping u).0 (mapped.0 (ground arith));
          },
      λ w. rw (
        (distinct_ids-Unique b.entities).1 w.ids_distinct,
        namespaces.1 (one.1 w.one_namespace),
        hashes.1 w.hashes,
        observed.1 w.observations_sourced,
        asserted.1 w.assertions_sourced,
        evidence.1 w.mappings_sourced,
        (check_assertions-eq-ok b.entities w.ids_distinct b.assertions).1 w.typed,
        described.1 ((describing w.ids_distinct).1 w.described),
        mapped.1 ((mapping w.ids_distinct).1 w.mapped),
      ),
    )
