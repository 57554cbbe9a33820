-- ===== src/Resolution/Remapping.antt =====
-- `resolve_identifiers` of src/kdiff/construction/resolution.py: the batch that its decisions give.
-- The hashes of `digest` are parameters, and so is the validation of the new batch.
pub mod References
use knowledge_diffusion.Base.{
  Bool, Key, List, Option, Result, [], dict, false, if◌then◌else◌, map, none, not, ok, raise_if,
  some, true, ◌&&◌, ◌++◌, ◌==◌, ◌>>=◌, ◌>>◌, ◌∷◌,
}
use knowledge_diffusion.Graph.{EntityType}
use knowledge_diffusion.Resolution
use knowledge_diffusion.Resolution.{
  Json, Items, Entries, text, scalar, array, object, no_items, item, no_entries, entry, Field,
  EntityRow, ObservationRow, ResolutionError, Decision, pairs_of, decisions,
}

pub record AssertionBody : Type 0 where
  pub logical_fact_key : Key
  pub head_id : Key
  pub relation : Key
  pub tail_id : Key
  pub valid_time : Key
  pub qualifiers : Entries
  pub rest : Key

pub record AssertionRow : Type 0 where
  pub assertion_id : Key
  pub body : AssertionBody

pub record IdentityRow : Type 0 where
  pub mapping_id : Key
  pub canonical_id : Key
  pub rest : Key

pub record BatchRows : Type 0 where
  pub entities : List EntityRow
  pub observations : List ObservationRow
  pub assertions : List AssertionRow
  pub identities : List IdentityRow
  pub rest : Key

-- What the graph holds already: the identifiers of its entities, and its observations.
pub record Existing : Type 0 where
  pub entity_ids : List Key
  pub observations : List ObservationRow

abbrev pub latest : Option Key → Option Key → Option Key
latest (some t) this = some t
latest none this = this

-- `replacements.get(id)`: a later decision on an entity replaces an earlier one.
abbrev pub replacement : List Decision → Key → Option Key
replacement [] id = none
replacement (Resolution.conflict e cs ∷ ds) id = replacement ds id
replacement (Resolution.resolved e t x ids ∷ ds) id =
    latest (replacement ds id) (if e == id then some t else none)

abbrev pub or_itself : Key → Option Key → Key
or_itself id none = id
or_itself id (some t) = t

-- `replacements.get(value, value)`
unfoldable pub replaced : List Decision → Key → Key
replaced ds id = or_itself id (replacement ds id)

abbrev mutual
  pub remap : (Key → Key) → Json → Json
  remap f (text k) = text (f k)
  remap f (scalar k) = scalar k
  remap f (array xs) = array (remap_items f xs)
  remap f (object xs) = object (remap_entries f xs)

  pub remap_items : (Key → Key) → Items → Items
  remap_items f no_items = no_items
  remap_items f (item x xs) = item (remap f x) (remap_items f xs)

  pub remap_entries : (Key → Key) → Entries → Entries
  remap_entries f no_entries = no_entries
  remap_entries f (entry k x xs) = entry k (remap f x) (remap_entries f xs)

-- `==` of two values.
abbrev mutual
  pub same_json : Json → Json → Bool
  same_json (text a) (text b) = a == b
  same_json (scalar a) (scalar b) = a == b
  same_json (array xs) (array ys) = same_items xs ys
  same_json (object xs) (object ys) = same_entries xs ys
  same_json _ _ = false

  pub same_items : Items → Items → Bool
  same_items no_items no_items = true
  same_items (item x xs) (item y ys) = same_json x y && same_items xs ys
  same_items _ _ = false

  pub same_entries : Entries → Entries → Bool
  same_entries no_entries no_entries = true
  same_entries (entry j x xs) (entry k y ys) = j == k && same_json x y && same_entries xs ys
  same_entries _ _ = false

module _ (digest_observation : Key → EntityType → Entries → Key → Key)
    (digest_fact : Key → Key → Key → Entries → Key) (digest_assertion : AssertionBody → Key)
    (digest_mapping : Key → Key → Key) (f : Key → Key) where
  abbrev pub new_entity : EntityRow → EntityRow
  new_entity e = record e { canonical_id = f e.canonical_id }

  -- A row that has changed has a new identifier.
  unfoldable pub new_observation : ObservationRow → ObservationRow
  new_observation o =
      let id = f o.entity_id in
      let attributes = remap_entries f o.attributes in
      record o {
        entity_id = id;
        attributes = attributes;
        observation_id =
            if id == o.entity_id && same_entries attributes o.attributes
            then o.observation_id
            else digest_observation id o.kind attributes o.rest;
      }

  abbrev pub new_body : AssertionBody → AssertionBody
  new_body b =
      let head = f b.head_id in
      let tail = f b.tail_id in
      let qualifiers = remap_entries f b.qualifiers in
      record b {
        head_id = head;
        tail_id = tail;
        qualifiers = qualifiers;
        logical_fact_key = digest_fact head b.relation tail qualifiers;
      }

  abbrev pub same_body : AssertionBody → AssertionBody → Bool
  same_body a b =
      a.head_id == b.head_id
      && a.tail_id == b.tail_id
      && same_entries a.qualifiers b.qualifiers
      && a.logical_fact_key == b.logical_fact_key

  unfoldable pub new_assertion : AssertionRow → AssertionRow
  new_assertion a =
      let body = new_body a.body in
      record {
        assertion_id = if same_body body a.body then a.assertion_id else digest_assertion body;
        body = body;
      }

  unfoldable pub new_identity : IdentityRow → IdentityRow
  new_identity i =
      let id = f i.canonical_id in
      record i {
        canonical_id = id;
        mapping_id = if id == i.canonical_id then i.mapping_id else digest_mapping id i.rest;
      }

  -- Entities that have come together are one, the last.
  unfoldable pub rewritten : BatchRows → BatchRows
  rewritten b = record b {
    entities = dict (λ e. e.canonical_id) (map new_entity b.entities);
    observations = map new_observation b.observations;
    assertions = map new_assertion b.assertions;
    identities = map new_identity b.identities;
  }

module _ (field_name : Field → Key) (is_true : Json → Bool) (normal : Field → Json → Option Key)
    (digest_observation : Key → EntityType → Entries → Key → Key)
    (digest_fact : Key → Key → Key → Entries → Key) (digest_assertion : AssertionBody → Key)
    (digest_mapping : Key → Key → Key) (valid : BatchRows → Bool) where
  unfoldable pub resolve_identifiers :
      BatchRows → Existing → Result ResolutionError (BatchRows × List Decision)
  resolve_identifiers batch existing = do
    let rows = existing.observations ++ batch.observations
    pairs ← pairs_of field_name is_true normal rows
    ds ← decisions pairs existing.entity_ids rows batch.entities
    let body =
        rewritten digest_observation digest_fact digest_assertion digest_mapping (replaced ds) batch
    raise_if (not (valid body)) Resolution.invalid_batch
    ok (body, ds)
