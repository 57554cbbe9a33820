-- ===== src/Graph.antt =====
-- The records of the scientific graph (src/kdiff/core/contracts.py) and the registry of entity and
-- relation types (src/kdiff/core/schema.py).
-- Identifiers, names and hashes are keys.
use knowledge_diffusion.Base.{
  Bool, Key, List, Option, Result, [], arith, false, get_elem?, is_some, not, ok, raise_if, some,
  true, ℕ, ◌&&◌, ◌>>◌, ◌||◌, ◌∷◌, ◌≡◌,
}
use knowledge_diffusion.Time.{TimeRange}

pub data EntityType : Type 0 where
  author paper institution topic patent grant : EntityType

pub data Relation : Type 0 where
  author_of affiliated_with classified_as cites_paper cited_by_patent : Relation
  cites_patent assigned_to funded_by granted_by advisor_of collaborates_with : Relation
  has_site announced_site : Relation
  corresponding coauthored_with committee_members visiting_at obtained_degree_at : Relation
  emeritus_at extends refutes updates enables_technology works_in pioneered_topic : Relation
  subunit_of merged_with consortium funds invented_by licenses priority_claim_from : Relation

-- The position of a relation in the registry.
abbrev pub rank : Relation → ℕ
rank author_of = 0
rank affiliated_with = 1
rank classified_as = 2
rank cites_paper = 3
rank cited_by_patent = 4
rank cites_patent = 5
rank assigned_to = 6
rank funded_by = 7
rank granted_by = 8
rank advisor_of = 9
rank collaborates_with = 10
rank has_site = 11
rank announced_site = 12
rank corresponding = 13
rank coauthored_with = 14
rank committee_members = 15
rank visiting_at = 16
rank obtained_degree_at = 17
rank emeritus_at = 18
rank extends = 19
rank refutes = 20
rank updates = 21
rank enables_technology = 22
rank works_in = 23
rank pioneered_topic = 24
rank subunit_of = 25
rank merged_with = 26
rank consortium = 27
rank funds = 28
rank invented_by = 29
rank licenses = 30
rank priority_claim_from = 31

abbrev pub registry : List Relation
registry =
    author_of ∷ affiliated_with ∷ classified_as ∷ cites_paper ∷ cited_by_patent ∷ cites_patent
    ∷ assigned_to ∷ funded_by ∷ granted_by ∷ advisor_of ∷ collaborates_with ∷ has_site
    ∷ announced_site ∷ corresponding ∷ coauthored_with ∷ committee_members ∷ visiting_at
    ∷ obtained_degree_at ∷ emeritus_at ∷ extends ∷ refutes ∷ updates ∷ enables_technology ∷ works_in
    ∷ pioneered_topic ∷ subunit_of ∷ merged_with ∷ consortium ∷ funds ∷ invented_by ∷ licenses
    ∷ priority_claim_from ∷ []

abbrev pub ranked : ℕ → Option Relation
ranked n = get_elem? registry n

pub ranked-rank : (r : Relation) → ranked (rank r) ≡ some r
ranked-rank r = ground arith

-- The qualifier that a relation requires.
pub data Required : Type 0 where
  no_qualifier date_basis role contributing_ids site : Required

pub record Signature : Type 0 where
  pub head : EntityType
  pub tails : List EntityType
  pub required : Required

abbrev plain : EntityType → EntityType → Signature
plain head tail = record { head = head; tails = tail ∷ []; required = no_qualifier }

abbrev requiring : EntityType → EntityType → Required → Signature
requiring head tail required = record { head = head; tails = tail ∷ []; required = required }

-- `RELATIONS`
unfoldable pub signature : Relation → Signature
signature author_of = plain author paper
signature affiliated_with = plain author institution
signature classified_as = plain paper topic
signature cites_paper = plain paper paper
signature cited_by_patent = requiring paper patent date_basis
signature cites_patent = plain paper patent
signature assigned_to = plain patent institution
signature funded_by = plain paper grant
signature granted_by = requiring grant institution role
signature advisor_of = plain author author
signature collaborates_with = requiring author author contributing_ids
signature has_site = requiring institution institution site
signature announced_site = requiring institution institution site
signature corresponding = plain author paper
signature coauthored_with = plain author author
signature committee_members = plain author author
signature visiting_at = plain author institution
signature obtained_degree_at = plain author institution
signature emeritus_at = plain author institution
signature extends = plain paper paper
signature refutes = plain paper paper
signature updates = plain paper paper
signature enables_technology = plain paper patent
signature works_in = plain author topic
signature pioneered_topic = plain author topic
signature subunit_of = plain institution institution
signature merged_with = plain institution institution
signature consortium = plain institution institution
signature funds = record {
  head = grant;
  tails = author ∷ institution ∷ [];
  required = no_qualifier;
}
signature invented_by = plain patent author
signature licenses = plain patent institution
signature priority_claim_from = plain patent patent

pub record Entity : Type 0 where
  pub canonical_id : Key
  pub namespace : Key
  pub kind : EntityType
  pub is_site : Bool

pub data GrantRole : Type 0 where
  sponsor administrator other_role : GrantRole

-- The qualifiers that the code reads.
pub record Qualifiers : Type 0 where
  pub date_basis : Bool
  pub contributing_ids : Bool
  pub role : Option GrantRole
  pub role_title : Option Key
  pub institution_ids : List Key
  pub start_uncertainty : Option TimeRange
  pub end_uncertainty : Option TimeRange

pub data ObservationKind : Type 0 where
  publication employment announcement operation other : ObservationKind

pub record Assertion : Type 0 where
  pub assertion_id : Key
  pub head_id : Key
  pub relation : Relation
  pub tail_id : Key
  pub valid_time : TimeRange
  pub observation_kind : ObservationKind
  pub source : Key
  pub raw_artifact_pointer : Key
  pub qualifiers : Qualifiers

pub record Observation : Type 0 where
  pub observation_id : Key
  pub entity_id : Key
  pub kind : EntityType
  pub raw_artifact_pointer : Key

pub record Identity : Type 0 where
  pub source_id : Key
  pub canonical_id : Key
  pub evidence_hash : Key

pub record Batch : Type 0 where
  pub namespace : Key
  pub entities : List Entity
  pub observations : List Observation
  pub assertions : List Assertion
  pub identities : List Identity
  -- The sources' `sha256`, and whether each is 64 hexadecimal digits.
  pub sources : List (Key × Bool)

pub EntityType-discrete : Discrete EntityType
EntityType-discrete = hlevel

abbrev pub same_kind : EntityType → EntityType → Bool
same_kind author author = true
same_kind paper paper = true
same_kind institution institution = true
same_kind topic topic = true
same_kind patent patent = true
same_kind grant grant = true
same_kind _ _ = false

pub data SchemaError : Type 0 where
  endpoint_types site_subtype missing_qualifier grant_role : SchemaError
  duplicate_entity namespace_differs bad_hash no_source no_evidence : SchemaError
  missing_endpoint no_entity no_identity_endpoint : SchemaError

abbrev pub has_kind : EntityType → List EntityType → Bool
has_kind k [] = false
has_kind k (x ∷ xs) = same_kind x k || has_kind k xs

-- The qualifier part of `validate_relation`.
unfoldable pub required_present : Required → Entity → Qualifiers → Result SchemaError (Unit {0})
required_present no_qualifier tail q = ok tt
required_present date_basis tail q = raise_if (not q.date_basis) missing_qualifier
required_present contributing_ids tail q = raise_if (not q.contributing_ids) missing_qualifier
required_present role tail q = raise_if (not (is_some q.role)) missing_qualifier
required_present site tail q = raise_if (not tail.is_site) site_subtype

abbrev pub is_grant_role : Option GrantRole → Bool
is_grant_role (some sponsor) = true
is_grant_role (some administrator) = true
is_grant_role _ = false

abbrev pub is_granted_by : Relation → Bool
is_granted_by granted_by = true
is_granted_by _ = false

-- `validate_relation`, whose relation is registered by its type here.
unfoldable pub validate_relation :
    Relation → Entity → Entity → Qualifiers → Result SchemaError (Unit {0})
unfolding signature required_present
validate_relation relation head tail q = do
  let s = signature relation
  raise_if (not (same_kind head.kind s.head) || not (has_kind tail.kind s.tails)) endpoint_types
  required_present s.required tail q
  raise_if (is_granted_by relation && not (is_grant_role q.role)) grant_role
