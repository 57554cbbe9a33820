-- ===== src/Program.antt =====
-- The graph programs of src/kdiff/analysis/graph_program.py and the validators of their steps.
-- Arguments stand for what pydantic has read: a relation is a registered one, an empty text is
-- absent, and a context has its three fields.
use knowledge_diffusion.Base.{
  Bool, Key, List, Option, Result, String, [], any, false, if◌then◌else◌, is_some, leb, length,
  none, not, ok, raise_if, same_set, some, true, ℕ, ◌&&◌, ◌==◌, ◌>>=◌, ◌>>◌, ◌||◌, ◌∷◌,
}
use knowledge_diffusion.Time.{Window}
use knowledge_diffusion.Graph
use knowledge_diffusion.Graph.{EntityType, Relation, signature, same_kind, has_kind}
use knowledge_diffusion.Values
use knowledge_diffusion.Values.{Attribution, Operation, TemporalRule, StateKey}

pub record ResolveArgs : Type 0 where
  pub kind : EntityType
  pub identifier : Option Key
  pub name : Option String
  pub institution_id : Option Key
  pub role : Option Key
  pub source_id : Option Key

pub record FilterArgs : Type 0 where
  pub input : Key
  pub window : Key
  pub contained : Bool

pub record ExpandArgs : Type 0 where
  pub input : Key
  pub relation : Relation
  pub out : Bool
  pub head_kind : EntityType
  pub tail_kind : EntityType
  pub max_edges : ℕ

pub record PathArgs : Type 0 where
  pub input : Key
  pub target_id : Key
  pub relations : List Relation
  pub out : Bool
  pub window : Key
  pub max_hops : ℕ
  pub max_paths : ℕ
  pub temporal_rule : TemporalRule

pub data Metric : Type 0 where
  count event_trace mobility_returns : Metric

pub record AggregateArgs : Type 0 where
  pub input : Key
  pub window : Key
  pub unit : EntityType
  pub attribution : Attribution
  pub institution_id : Option Key
  pub topic_id : Option Key
  pub source : Option Key
  pub by_year : Bool
  pub metric : Metric
  pub subject_id : Option Key

pub record CompareArgs : Type 0 where
  pub left : Key
  pub right : Key
  pub operation : Operation
  pub matched_year_windows : Bool

-- A step's operator with its arguments.
pub data Call : Type 0 where
  resolve : ResolveArgs → Call
  normalize : Window → Call
  filter_interval : FilterArgs → Call
  expand : ExpandArgs → Call
  path_search : PathArgs → Call
  aggregate : AggregateArgs → Call
  compare : CompareArgs → Call
  project : Key → Call
  read_state : StateKey → Call
  update_state : Key → StateKey → Call

pub record Step : Type 0 where
  pub id : Key
  pub call : Call
  pub depends_on : List Key

pub record GraphProgram : Type 0 where
  pub release_id : Key
  pub steps : List Step
  pub output : Key

abbrev pub within : ℕ → ℕ → ℕ → Bool
within lo hi n = leb lo n && leb n hi

abbrev pub is_count : Metric → Bool
is_count count = true
is_count _ = false

abbrev pub by_authorship : Attribution → Bool
by_authorship Values.publication_authorship = true
by_authorship _ = false

-- The validators of the argument classes.
unfoldable pub valid_call : Call → Bool
unfolding signature
valid_call (resolve a) = is_some a.identifier || is_some a.name
valid_call (expand a) =
    within 1 10000 a.max_edges
    && same_kind a.head_kind (signature a.relation).head
    && has_kind a.tail_kind (signature a.relation).tails
valid_call (path_search a) =
    within 1 8 (length a.relations) && within 1 6 a.max_hops && within 1 1000 a.max_paths
valid_call (aggregate a) =
    (is_count a.metric || is_some a.subject_id)
    && (not (by_authorship a.attribution)
        || same_kind a.unit Graph.paper && is_some a.institution_id)
valid_call _ = true

-- The type of a step's result.
pub data ResultType : Type 0 where
  entities_type window_type edges_type paths_type aggregate_type : ResultType
  comparison_type provenance_type state_type event_trace_type returns_type : ResultType

abbrev pub output_of_metric : Metric → ResultType
output_of_metric count = aggregate_type
output_of_metric event_trace = event_trace_type
output_of_metric mobility_returns = returns_type

-- `OUTPUTS`, and the type of an aggregation with a metric.
abbrev pub output_type : Call → ResultType
output_type (resolve _) = entities_type
output_type (normalize _) = window_type
output_type (filter_interval _) = edges_type
output_type (expand _) = edges_type
output_type (path_search _) = paths_type
output_type (aggregate a) = output_of_metric a.metric
output_type (compare _) = comparison_type
output_type (project _) = provenance_type
output_type (read_state _) = state_type
output_type (update_state _ _) = state_type

-- The bindings that a step's arguments name.
abbrev pub refs_of : Call → List Key
refs_of (filter_interval a) = a.input ∷ a.window ∷ []
refs_of (expand a) = a.input ∷ []
refs_of (path_search a) = a.input ∷ a.window ∷ []
refs_of (aggregate a) = a.input ∷ a.window ∷ []
refs_of (compare a) = a.left ∷ a.right ∷ []
refs_of (project input) = input ∷ []
refs_of (update_state input _) = input ∷ []
refs_of _ = []

pub data ProgramError : Type 0 where
  invalid_argument unbound_dependency wrong_type no_output step_count : ProgramError

-- `seen`, the types of the bindings so far.
abbrev pub Scope : Type 0
Scope = List (Key × ResultType)

abbrev pub type_in : Scope → Key → Option ResultType
type_in [] id = none
type_in ((k, t) ∷ scope) id = let rest = type_in scope id in if k == id then some t else rest

abbrev pub is_window : Option ResultType → Bool
is_window (some window_type) = true
is_window _ = false

abbrev pub is_entities : Option ResultType → Bool
is_entities (some entities_type) = true
is_entities _ = false

abbrev pub is_edges : Option ResultType → Bool
is_edges (some edges_type) = true
is_edges _ = false

abbrev pub is_aggregate : Option ResultType → Bool
is_aggregate (some aggregate_type) = true
is_aggregate _ = false

-- The types that a step's operator wants of its bindings.
unfoldable pub typed_call : Scope → Call → Bool
typed_call s (filter_interval a) = is_window (type_in s a.window) && is_edges (type_in s a.input)
typed_call s (expand a) = is_entities (type_in s a.input) || is_edges (type_in s a.input)
typed_call s (path_search a) = is_window (type_in s a.window) && is_entities (type_in s a.input)
typed_call s (aggregate a) = is_window (type_in s a.window) && is_edges (type_in s a.input)
typed_call s (compare a) = is_aggregate (type_in s a.left) && is_aggregate (type_in s a.right)
typed_call s _ = true

-- The body of the validator's loop.
unfoldable pub check_step : Scope → Step → Result ProgramError Scope
check_step seen step = do
  raise_if (not (valid_call step.call)) invalid_argument
  let refs = refs_of step.call
  raise_if
      (is_some (type_in seen step.id)
        || not (same_set refs step.depends_on)
        || any (λ r. not (is_some (type_in seen r))) refs)
      unbound_dependency
  raise_if (not (typed_call seen step.call)) wrong_type
  ok ((step.id, output_type step.call) ∷ seen)

unfoldable pub check_steps : Scope → List Step → Result ProgramError Scope
check_steps seen [] = ok seen
check_steps seen (step ∷ steps) = check_step seen step >>= λ seen'. check_steps seen' steps

-- `GraphProgram.valid`, with the bounds on its steps.
unfoldable pub valid_program : GraphProgram → Result ProgramError GraphProgram
valid_program p = do
  raise_if (not (within 1 30 (length p.steps))) step_count
  seen ← check_steps [] p.steps
  raise_if (not (is_some (type_in seen p.output))) no_output
  ok p
