-- ===== src/Executor.antt =====
-- `Executor` of src/kdiff/analysis/graph_program.py: its data, and the resolution of identities and
-- the expansion and filtering of relations.
-- `casefold` of texts and the hash of a graph are parameters.
pub mod Counting
pub mod Paths
pub mod Comparing
pub mod Run
pub mod Typing
pub mod Expansion
mod Examples
mod RunExamples
use knowledge_diffusion.Base.{
  Bool, Key, List, Option, Result, String, [], among, any, dict, err, false, if◌then◌else◌, is_key,
  is_some, length, ltb, map, member, none, not, ok, or_raise, raise_if, row_at, select, some,
  sorted, str_eq, true, ◌&&◌, ◌==◌, ◌>>=◌, ◌>>◌, ◌||◌, ◌∷◌,
}
use knowledge_diffusion.Time
use knowledge_diffusion.Time.{TimeRange, Window, Membership, membership}
use knowledge_diffusion.Graph
use knowledge_diffusion.Graph.{Entity, Assertion, Identity, EntityType, Relation}
use knowledge_diffusion.Values
use knowledge_diffusion.Values.{Value, EdgesValue, StateKey, StateValue, same_relation}
use knowledge_diffusion.Claims.{Pool, pool_get}
use knowledge_diffusion.Program.{ResolveArgs, ExpandArgs, FilterArgs}

-- An observation, with the attributes that name its entity.
pub record Naming : Type 0 where
  pub observation_id : Key
  pub entity_id : Key
  pub name : Option String
  pub title : Option String
  pub aliases : List String
  pub raw_artifact_pointer : Key

pub record Source : Type 0 where
  pub source : Key
  pub sha256 : Key

-- An exported graph.
pub record Export : Type 0 where
  pub entities : List Entity
  pub observations : List Naming
  pub assertions : List Assertion
  pub identities : List Identity
  pub sources : List Source

-- The dialogue's state.
pub record Dialogue : Type 0 where
  pub release_id : Option Key
  pub bindings : List (StateKey × StateValue)

pub record Executor : Type 0 where
  pub graph : Export
  pub release_id : Key
  pub entities : List Entity
  pub edges : List Assertion

-- `type_error` is a KeyError or AttributeError: a binding, an identifier or a field that is not
-- there.
pub data ExecError : Type 0 where
  type_error : ExecError
  release_changed wrong_endpoint wrong_events wrong_unit windows_disagree not_authorship : ExecError
  incompatible_policies incomparable_windows unmatched_windows wrong_state program_mismatch :
      ExecError
  edge_limit endpoint_missing undated_filter source_absent topic_absent undated_aggregate :
      ExecError
  ambiguous_year target_missing state_budget undated_path ambiguous_order path_budget : ExecError
  zero_denominator trace_failed : ExecError
  clarify : List Key → ExecError
  state_missing : ExecError

-- `Executor.__init__`
unfoldable pub new_executor : Export → Key → Dialogue → Result ExecError Executor
new_executor g release_id state = do
  raise_if (is_some state.release_id && not (is_key release_id state.release_id)) release_changed
  ok (record {
    graph = g;
    release_id = release_id;
    entities = dict (λ e. e.canonical_id) g.entities;
    edges = dict (λ a. a.assertion_id) g.assertions;
  })

-- `values[id]`
abbrev pub value_at : Pool → Key → Result ExecError Value
value_at values id = or_raise (pool_get values id) type_error

abbrev pub as_window : Value → Result ExecError Window
as_window (Values.window w) = ok w
as_window _ = err type_error

abbrev pub as_edges : Value → Result ExecError EdgesValue
as_edges (Values.edges e) = ok e
as_edges _ = err type_error

abbrev pub window_at : Pool → Key → Result ExecError Window
window_at values id = value_at values id >>= as_window

abbrev pub edges_at : Pool → Key → Result ExecError EdgesValue
edges_at values id = value_at values id >>= as_edges

-- `{…} & {…}`, where the argument is given.
abbrev pub narrow {ℓ} : {A : Type ℓ} → Option A → (A → List Key) → List Key → List Key
narrow none of matches = matches
narrow (some a) of matches = among matches (of a)

abbrev pub label_of : Naming → String
label_of o = elim o.name [ some n ↦ n | none ↦ elim o.title [ some t ↦ t | none ↦ "" ] ]

abbrev pub is_membership : Relation → Bool
is_membership Graph.affiliated_with = true
is_membership Graph.visiting_at = true
is_membership _ = false

abbrev pub has_role : Option Key → Assertion → Bool
has_role none a = true
has_role (some role) a = is_key role a.qualifiers.role_title

module _ (casefold : String → String) (x : Executor) where
  abbrev pub by_identifier : Key → List Key
  by_identifier id =
      id ∷ map (λ i. i.canonical_id) (select (λ i. i.source_id == id) x.graph.identities)

  abbrev pub by_name : String → List Key
  by_name name =
      map (λ o. o.entity_id)
        (select
          (λ o.
            str_eq (casefold (label_of o)) (casefold name)
            || any (λ a. str_eq (casefold a) (casefold name)) o.aliases)
          x.graph.observations)

  abbrev pub by_institution : Option Key → Key → List Key
  by_institution role institution =
      map (λ a. a.head_id)
        (select (λ a. a.tail_id == institution && is_membership a.relation && has_role role a)
          x.edges)

  abbrev pub by_source : Key → List Key
  by_source id = map (λ i. i.canonical_id) (select (λ i. i.source_id == id) x.graph.identities)

  abbrev pub by_role : Key → List Key
  by_role role = map (λ a. a.head_id) (select (has_role (some role)) x.edges)

  -- `role and not institution_id`
  abbrev pub lone_role : ResolveArgs → Option Key
  lone_role args = if is_some args.institution_id then none else args.role

  -- The entities that every part of the request allows.
  unfoldable pub matches_of : ResolveArgs → List Key
  matches_of args = narrow (lone_role args) by_role (
      narrow args.source_id by_source (
        narrow args.institution_id (by_institution args.role) (
          narrow args.name by_name (
            narrow args.identifier by_identifier (
              map (λ e. e.canonical_id)
                (select (λ e. Graph.same_kind e.kind args.kind) x.entities))))))

  abbrev pub unique_match : EntityType → List Key → Result ExecError Value
  unique_match kind (id ∷ []) = ok (
      Values.entities (id ∷ []) kind (
        sorted
          (map (λ o. o.observation_id) (select (λ o. o.entity_id == id) x.graph.observations))))
  unique_match kind matches = err (clarify (sorted matches))

  unfoldable pub resolve : ResolveArgs → Result ExecError Value
  unfolding matches_of
  resolve args = unique_match args.kind (matches_of args)

-- `self.edges[id]`
abbrev pub edge_at : Executor → Key → Option Assertion
edge_at x id = row_at (λ a. a.assertion_id) x.edges id

abbrev pub rows_of : Executor → List Key → Result ExecError (List Assertion)
rows_of x [] = ok []
rows_of x (id ∷ ids) = do
  a ← or_raise (edge_at x id) type_error
  rest ← rows_of x ids
  ok (a ∷ rest)

abbrev pub target_of : Bool → Assertion → Key
target_of is_tail a = if is_tail then a.tail_id else a.head_id

abbrev pub is_entity_of : Executor → Key → Bool
is_entity_of x id = is_some (row_at (λ e. e.canonical_id) x.entities id)

-- Where an expansion starts, and the kind of those entities.
abbrev pub starts_of : Executor → Value → Result ExecError (List Key × EntityType)
starts_of x (Values.entities ids kind inputs) = ok (ids, kind)
starts_of x (Values.edges e) = do
  rows ← rows_of x e.ids
  ok (map (target_of e.target_is_tail) rows, e.kind)
starts_of x _ = err type_error

abbrev pub leads_from : ExpandArgs → List Key → Assertion → Bool
leads_from args starts a =
    same_relation a.relation args.relation && member (target_of (not args.out) a) starts

abbrev pub expanded : Executor → ExpandArgs → List Assertion → Result ExecError Value
expanded x args rows = do
  raise_if (ltb args.max_edges (length rows)) edge_limit
  raise_if (any (λ a. not (is_entity_of x a.head_id) || not (is_entity_of x a.tail_id)) rows)
      endpoint_missing
  ok (
      Values.edges (record {
        ids = sorted (map (λ a. a.assertion_id) rows);
        target_is_tail = args.out;
        kind = if args.out then args.tail_kind else args.head_kind;
        filter_input_ids = none;
        window = none;
      }))

unfoldable pub expand : Executor → ExpandArgs → Pool → Result ExecError Value
expand x args values = do
  initial ← value_at values args.input
  starts ← starts_of x initial
  raise_if (not (Graph.same_kind starts.1 (if args.out then args.head_kind else args.tail_kind)))
      wrong_endpoint
  expanded x args (select (leads_from args starts.0) x.edges)

-- `overlap`
unfoldable pub overlap : TimeRange → Window → Membership
overlap t w =
    if Time.known_before t.upper w.start || Time.known_after t.lower w.end
    then Time.outside
    else if is_some t.lower && is_some t.upper
    then Time.inside
    else Time.indeterminate

abbrev pub status_of : Bool → TimeRange → Window → Membership
status_of true t w = membership t w
status_of false t w = overlap t w

abbrev pub is_undated : Membership → Bool
is_undated Time.indeterminate = true
is_undated _ = false

abbrev pub is_inside : Membership → Bool
is_inside Time.inside = true
is_inside _ = false

-- The loop of 'FilterInterval'.
unfoldable pub filtered : Executor → Bool → Window → List Key → Result ExecError (List Key)
filtered x contained w [] = ok []
filtered x contained w (id ∷ ids) = do
  a ← or_raise (edge_at x id) type_error
  raise_if (is_undated (status_of contained a.valid_time w)) undated_filter
  rest ← filtered x contained w ids
  ok (if is_inside (status_of contained a.valid_time w) then id ∷ rest else rest)

unfoldable pub filter_interval : Executor → FilterArgs → Pool → Result ExecError Value
unfolding filtered
filter_interval x args values = do
  prior ← edges_at values args.input
  w ← window_at values args.window
  selected ← filtered x args.contained w prior.ids
  ok (
      Values.edges
        (record prior { ids = selected; filter_input_ids = some prior.ids; window = some w }))
